-- ===== src/Http/Url/Prefix.antt =====
-- Which URLs `isUrlPrefix` accepts for a prefix.
use epoll_http_server.Base.{
  ℕ, Bool, true, false, ◌||◌, some, [], ◌∷◌, ◌++◌, Bytes, ◌≡◌, ◌↔◌, ◌⊎◌, inl, inr, refl, ap, arith,
  ◌==◌,
}
use epoll_http_server.Http.Url.{is_prefix, match_prefix}

abbrev pub starts_with_slash : Bytes → Bool
starts_with_slash [] = false
starts_with_slash (c ∷ cs) = c == b'/'

-- the last byte of a text, or `l` if it is empty
abbrev pub last_or : ℕ → Bytes → ℕ
last_or l [] = l
last_or l (c ∷ cs) = last_or c cs

-- A prefix that ends in byte `l` ends a segment before `rest`.
abbrev pub at_boundary : ℕ → Bytes → Bool
at_boundary l [] = true
at_boundary l (c ∷ cs) = c == b'/' || l == b'/'

-- The URL goes on from the prefix at the end of a segment, or the prefix goes on from the URL with
-- a slash. `l` is the byte before both.
abbrev pub Related : ℕ → Bytes → Bytes → Type 0
Related l url prefix =
    ((rest : Bytes) × (url ≡ prefix ++ rest) × (at_boundary (last_or l prefix) rest ≡ true))
    ⊎ ((rest : Bytes) × (prefix ≡ url ++ b'/' ∷ rest))

Related-cons : (l c : ℕ) (us ps : Bytes) → Related c us ps → Related l (c ∷ us) (c ∷ ps)
Related-cons l c us ps (inl (rest, e, b)) = inl (rest, ap (◌∷◌ c) e, b)
Related-cons l c us ps (inr (rest, e)) = inr (rest, ap (◌∷◌ c) e)

Related-uncons :
    (l u p : ℕ) (us ps : Bytes) → Related l (u ∷ us) (p ∷ ps) → (u ≡ p) × Related p us ps
Related-uncons l u p us ps (inl (rest, e, b)) = (ground arith, inl (rest, ground arith, b))
Related-uncons l u p us ps (inr (rest, e)) = (ground arith, inr (rest, ground arith))

match_prefix-Related :
    (l : ℕ) (us ps : Bytes) → match_prefix (some l) (some l) us ps ≡ true → Related l us ps
unfolding match_prefix
match_prefix-Related l [] [] h = inl ([], refl, refl)
match_prefix-Related l [] (p ∷ ps) h = inr (ps, ground arith)
match_prefix-Related l (u ∷ us) [] h = inl (u ∷ us, refl, ground arith)
match_prefix-Related l (u ∷ us) (p ∷ ps) h =
    let same : u ≡ p = ground arith in
    let rest : match_prefix (some p) (some p) us ps ≡ true = ground arith in
    rw same (Related-cons l p us ps (match_prefix-Related p us ps rest))

Related-match_prefix :
    (l : ℕ) (us ps : Bytes) → Related l us ps → match_prefix (some l) (some l) us ps ≡ true
unfolding match_prefix
Related-match_prefix l [] [] r = refl
Related-match_prefix l [] (p ∷ ps) (inl (rest, e, b)) = absurd (cc e)
Related-match_prefix l [] (p ∷ ps) (inr (rest, e)) = ground arith
Related-match_prefix l (u ∷ us) [] (inl (rest, e, b)) = ground arith
Related-match_prefix l (u ∷ us) [] (inr (rest, e)) = absurd (cc e)
Related-match_prefix l (u ∷ us) (p ∷ ps) r =
    let (same, rest) = Related-uncons l u p us ps r in
    ground (arith, Related-match_prefix p us ps rest)

skip_lem :
    (url prefix : Bytes)
    → starts_with_slash url ≡ false
    → starts_with_slash prefix ≡ false
    → is_prefix (b'/' ∷ url) (b'/' ∷ prefix) ≡ match_prefix (some b'/') (some b'/') url prefix
unfolding is_prefix
skip_lem [] [] h k = refl
skip_lem [] (p ∷ ps) h k = ground arith
skip_lem (u ∷ us) [] h k = ground arith
skip_lem (u ∷ us) (p ∷ ps) h k = ground arith

-- For a URL and a prefix that each begin with one slash: the prefix is accepted exactly if the URL
-- goes on from it at the end of a segment, or it goes on from the URL with a slash.
pub is_prefix_iff :
    (url prefix : Bytes)
    → starts_with_slash url ≡ false
    → starts_with_slash prefix ≡ false
    → (is_prefix (b'/' ∷ url) (b'/' ∷ prefix) ≡ true) ↔ Related b'/' url prefix
is_prefix_iff url prefix h k = (
  λ e. match_prefix-Related b'/' url prefix (rw (skip_lem url prefix h k) at e),
  λ r. rw (skip_lem url prefix h k) (Related-match_prefix b'/' url prefix r),
)

-- So a prefix longer than the URL is accepted too, for every URL that is one of the folders above
-- it.
pub is_prefix_of_parent :
    (url rest : Bytes)
    → starts_with_slash url ≡ false
    → starts_with_slash (url ++ b'/' ∷ rest) ≡ false
    → is_prefix (b'/' ∷ url) (b'/' ∷ (url ++ b'/' ∷ rest)) ≡ true
is_prefix_of_parent url rest h k = (is_prefix_iff url (url ++ b'/' ∷ rest) h k).1 (inr (rest, refl))
