-- ===== src/Storage/Release.antt =====
-- `free` takes an item out of the used list, wherever it stands, and puts it in front of the free
-- list.
use epoll_http_server.Base.{
  true, false, ℕ, ◌*◌, Option, none, some, List, [], ◌∷◌, ◌++◌, ◌≡◌, ◌≢◌, refl, sym, ◌∙◌, arith,
  append_assoc,
}
use mathlib.Core.Path.{subst}
use epoll_http_server.Storage.{
  BlockStorage, Memory, set_next, set_next?, remove_from_used_list, free, is_pointer,
}
use epoll_http_server.Storage.Chains.{
  Absent, Distinct, Below, Free, Used, Same, SameNext, Used-Same, Free-SameNext, Distinct-front,
  Distinct-back, Below-back, Below-front, Absent-append, Distinct-left,
}
use epoll_http_server.Storage.Allocate.{Represents}
use epoll_http_server.Storage.Unlink.{
  unlinked, Other, last_or, head_of, start_of, unlinked-next, last-other, Absent-Other, prev_of,
  next_of, unlinked-Used,
}

none-Other : (xs : List ℕ) → Other none xs
none-Other [] = tt
none-Other (x ∷ xs) = (λ e. cc e, none-Other xs)

-- The last item of the front part is none of those behind.
last-Other :
    (b : Option ℕ) (xs ys : List ℕ) → Other b ys → Distinct (xs ++ ys) → Other (last_or b xs) ys
last-Other b [] ys o d = o
last-Other b (x ∷ xs) ys o (a, d) =
    last-Other (some x) xs ys (Absent-Other x ys (Absent-append x xs ys a).1) d

Other-right : (b : Option ℕ) (xs ys : List ℕ) → Other b (xs ++ ys) → Other b ys
Other-right b [] ys o = o
Other-right b (x ∷ xs) ys (n, o) = Other-right b xs ys o

-- The links of the removed item are read before they are changed.
removed_links :
    (s : BlockStorage) (p : ℕ)
    → (s.links p).prev ≢ some p
    → (remove_from_used_list s p).links ≡ unlinked s.links (s.links p).prev (s.links p).next
unfolding remove_from_used_list
removed_links s p n =
    let here = s.links p in
    let same : set_next? s.links here.prev here.next p ≡ s.links p =
      kept s.links here.prev here.next p n in
    rw same refl
  where
    kept : (m : Memory) (b a : Option ℕ) (q : ℕ) → b ≢ some q → set_next? m b a q ≡ m q
    kept m none a q h = refl
    kept m (some x) a q h = ground arith

head_here : (h : Option ℕ) (p : ℕ) → h ≡ some p → is_pointer p h ≡ true
head_here none p e = absurd (cc e)
head_here (some x) p e = ground arith

head_other : (h : Option ℕ) (p x : ℕ) → h ≡ some x → p ≢ x → is_pointer p h ≡ false
head_other none p x e n = refl
head_other (some y) p x e n = ground arith

removed_head :
    (s : BlockStorage) (p : ℕ) (xs ys : List ℕ)
    → Used s.links none s.used_head (xs ++ p ∷ ys)
    → Absent p xs
    → (s.links p).next ≡ head_of ys
    → (remove_from_used_list s p).used_head ≡ start_of xs s.used_head (head_of ys)
unfolding remove_from_used_list
removed_head s p [] ys (h, k, u) a e = rw (head_here s.used_head p h) e
removed_head s p (x ∷ xs) ys (h, k, u) (n, a) e = rw (head_other s.used_head p x h n) refl

returned-SameNext :
    (m : Memory) (b a h : Option ℕ) (p : ℕ) (xs : List ℕ)
    → Other b xs
    → Absent p xs
    → SameNext m (set_next (unlinked m b a) p h) xs
returned-SameNext m b a h p [] o k = tt
returned-SameNext m b a h p (x ∷ xs) (n, o) (l, k) = (
  elsewhere (unlinked m b a) h p x l ∙ unlinked-next m b a x n,
  returned-SameNext m b a h p xs o k,
)
  where
    elsewhere : (m : Memory) (h : Option ℕ) (p x : ℕ) → p ≢ x → (set_next m p h x).next ≡ (m x).next
    elsewhere m h p x n = ground arith

returned-Same :
    (m : Memory) (h : Option ℕ) (p : ℕ) (xs : List ℕ) → Absent p xs → Same m (set_next m p h) xs
returned-Same m h p [] k = tt
returned-Same m h p (x ∷ xs) (l, k) = (ground arith, returned-Same m h p xs k)

-- `removeFromUsedList`, for an item of the used list.
removed-Used :
    (s : BlockStorage) (p : ℕ) (xs ys : List ℕ)
    → Used s.links none s.used_head (xs ++ p ∷ ys)
    → Distinct (xs ++ p ∷ ys)
    → ((remove_from_used_list s p).links ≡ unlinked s.links (last_or none xs) (head_of ys))
      × Used
          (unlinked s.links (last_or none xs) (head_of ys))
          none
          (remove_from_used_list s p).used_head
          (xs ++ ys)
removed-Used s p xs ys u d =
    let m = s.links in
    let b = prev_of m none s.used_head p xs ys u in
    let a = next_of m none s.used_head p xs ys u in
    let front = Distinct-front p xs ys d in
    let (ax, ay) = Absent-append p xs ys front.0 in
    let not_self : last_or none xs ≢ some p = self_other p xs ax in
    let links : (remove_from_used_list s p).links ≡ unlinked m (last_or none xs) (head_of ys) =
      removed_links s p (λ e. not_self (sym b ∙ e)) ∙ rw (b, a) refl in
    (
      links,
      subst (λ h. Used (unlinked m (last_or none xs) (head_of ys)) none h (xs ++ ys))
          (sym (removed_head s p xs ys u ax a))
          (unlinked-Used m none s.used_head p xs ys u d (none-Other (xs ++ ys))),
    )
  where
    self_other : (p : ℕ) (xs : List ℕ) → Absent p xs → last_or none xs ≢ some p
    self_other p [] h = λ e. cc e
    self_other p (x ∷ xs) h = last-other p x xs h

-- `free`, of an item in use: the other items stay in use, in their order, and the item is the first
-- of the free ones.
pub free-Represents :
    (size : ℕ) (s : BlockStorage) (p : ℕ) (xs ys available : List ℕ)
    → Represents size s (xs ++ p ∷ ys) available
    → Represents size (free s p) (xs ++ ys) (p ∷ available)
unfolding free remove_from_used_list
free-Represents size s p xs ys available r =
    let (links, used) =
      removed-Used s p xs ys r.used_list (Distinct-left (xs ++ p ∷ ys) available r.distinct) in
    let m = unlinked s.links (last_or none xs) (head_of ys) in
    let m2 = set_next m p s.free_head in
    let assoc = append_assoc xs (p ∷ ys) available in
    let back = sym (append_assoc xs ys available) in
    let d = Distinct-front p xs (ys ++ available) (subst Distinct assoc r.distinct) in
    let below =
      Below-front (s.block_count * size) p xs (ys ++ available)
        (subst (Below (s.block_count * size)) assoc r.in_blocks) in
    let (absent_used, absent_free) =
      Absent-append p (xs ++ ys) available (subst (Absent p) back d.0) in
    let other =
      Other-right (last_or none xs) ys available
        (last-Other none xs (ys ++ available) (none-Other (ys ++ available)) d.1) in
    let rest =
      Free-SameNext s.links m2 s.free_head available
        (returned-SameNext s.links (last_or none xs) (head_of ys) s.free_head p available other
          absent_free)
        r.free_list in
    let first : (m2 p).next ≡ s.free_head = ground arith in
    let list : Free m2 (some p) (p ∷ available) =
      (refl, subst (λ h. Free m2 h available) (sym first) rest) in
    record {
      used_list =
          subst
            (λ k.
              Used (set_next k p s.free_head) none (remove_from_used_list s p).used_head (xs ++ ys))
            (sym links)
            (Used-Same m m2 none _ (xs ++ ys) (returned-Same m s.free_head p (xs ++ ys) absent_used)
              used);
      free_list =
          subst (λ k. Free (set_next k p s.free_head) (some p) (p ∷ available)) (sym links) list;
      distinct = Distinct-back p (xs ++ ys) available (subst (λ l. Distinct (p ∷ l)) back d);
      in_blocks =
          Below-back (s.block_count * size) p (xs ++ ys) available
            (subst (λ l. Below (s.block_count * size) (p ∷ l)) back below);
    }
