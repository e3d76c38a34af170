-- ===== src/Config/Ascending.antt =====
-- src/utils/ConfigReader.cpp: the parameters, by ascending keys.
use epoll_http_server.Base.{
  zero, ◌≡◌, refl, ap, true, false, [], ◌∷◌, ◌++◌, append-nil, append_assoc, Bytes, All, arith, sym,
}
use epoll_http_server.Config.{ConfigMap, key_less, insert}

-- The keys ascend.
unfoldable pub IsAscending : ConfigMap → Type 0
IsAscending [] = zero ≡ zero
IsAscending (e ∷ es) = All (λ f. key_less e.0 f.0) es × IsAscending es

key_less_asym : (a b : Bytes) → key_less a b ≡ true → key_less b a ≡ false
unfolding key_less
key_less_asym [] [] less = refl
key_less_asym [] (y ∷ b) less = refl
key_less_asym (x ∷ a) [] less = absurd (ground (arith, less))
key_less_asym (x ∷ a) (y ∷ b) less = ground (arith, key_less_asym a b)

-- Every key of the first map is less than every key of the second.
unfoldable pub Before : ConfigMap → ConfigMap → Type 0
Before [] es = zero ≡ zero
Before (e ∷ acc) es = All (λ f. key_less e.0 f.0) es × Before acc es

insert-last :
    (acc : ConfigMap) (k v : Bytes) (es : ConfigMap)
    → Before acc ((k, v) ∷ es)
    → insert k v acc ≡ acc ++ (k, v) ∷ []
unfolding Before insert
insert-last [] k v es before = refl
insert-last ((j, w) ∷ acc) k v es ((less, all), before) =
    rw (key_less_asym j k less) (rw less (ap (λ m. (j, w) ∷ m) (insert-last acc k v es before)))

Before-last :
    (acc : ConfigMap) (e : Bytes × Bytes) (es : ConfigMap)
    → Before acc (e ∷ es)
    → All (λ f. key_less e.0 f.0) es
    → Before (acc ++ e ∷ []) es
unfolding Before
Before-last [] e es before all = (all, refl)
Before-last (d ∷ acc) e es ((less, rest), before) all = (rest, Before-last acc e es before all)

-- The entries inserted in their order.
unfoldable pub insert_all : ConfigMap → ConfigMap → ConfigMap
insert_all acc [] = acc
insert_all acc ((k, v) ∷ es) = insert_all (insert k v acc) es

pub insert_all-ascending :
    (acc es : ConfigMap) → IsAscending es → Before acc es → insert_all acc es ≡ acc ++ es
unfolding IsAscending insert_all
insert_all-ascending acc [] asc before = sym (append-nil acc)
insert_all-ascending acc ((k, v) ∷ es) (all, asc) before =
    rw
      (
        insert-last acc k v es before,
        insert_all-ascending (acc ++ (k, v) ∷ []) es asc (Before-last acc (k, v) es before all),
      )
      (append_assoc acc ((k, v) ∷ []) es)
