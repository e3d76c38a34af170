-- ===== src/Exec/Request/Served.antt =====
-- Which file `parseRequest` names.
use epoll_http_server.Base.{
  ℕ, zero, suc, [], ◌∷◌, leb, ◌+◌, ◌≤◌, Option, none, some, ◌++◌, Bytes, ◌≡◌, ◌⊎◌, inl, inr, refl,
  ap, ◌∙◌, arith, codes, length, take, Option-cases, Bool-cases,
}
use mathlib.Core.Path.{subst}
use epoll_http_server.Http.Request.{HttpRequest, ParseResult}
use epoll_http_server.Http.Methods.{parse, get_url}
use epoll_http_server.Http.Url.Safety.{IsSafe, parse-IsSafe}
use epoll_http_server.Ring.{Region, start_read, load}
use epoll_http_server.Exec.Data.{ProxyParameters}
use epoll_http_server.Exec.PollFds.{Conn}
use epoll_http_server.Exec.Request.{
  LoopNames, ParseRequestResult, name_file, accepted, parsed, parse_fuel, parse_region,
  parse_request, root_folder, max_file_name, with_request, find_proxy, strcmp,
}

-- The file is the index of the root folder, or has the name of a safe URL behind that of the root
-- folder, and then fits the buffer. The root folder's name stays in the buffer.
pub record Serves (names names' : LoopNames) : Type 0 where
  pub named :
      (names'.file_name ≡ root_folder names ++ codes "index.html")
      ⊎ ((url : Bytes) × (names'.file_name ≡ root_folder names ++ url)
          × IsSafe url
          × (names.root_folder_length + length url ≤ max_file_name))
  pub root_kept :
      names.root_folder_length ≤ length names.file_name → root_folder names' ≡ root_folder names

-- The name is built behind the root folder's.
root_kept_by :
    (names : LoopNames) (rest : Bytes)
    → names.root_folder_length ≤ length names.file_name
    → take names.root_folder_length (root_folder names ++ rest) ≡ root_folder names
root_kept_by names rest le = take_append_of names.root_folder_length names.file_name rest le
  where
    take_append_of : (n : ℕ) (xs ys : Bytes) → n ≤ length xs → take n (take n xs ++ ys) ≡ take n xs
    take_append_of zero xs ys le = refl
    take_append_of (suc n) [] ys le = absurd (omega arith)
    take_append_of (suc n) (x ∷ xs) ys le = ap (λ l. x ∷ l) (take_append_of n xs ys (omega arith))

index-Serves :
    (names : LoopNames)
    → Serves names (record names { file_name = root_folder names ++ codes "index.html" })
index-Serves names = record {
  named = inl refl;
  root_kept = root_kept_by names (codes "index.html");
}

url-Serves :
    (names : LoopNames) (url : Bytes)
    → IsSafe url
    → names.root_folder_length + length url ≤ max_file_name
    → Serves names (record names { file_name = root_folder names ++ url })
url-Serves names url safe le = record {
  named = inr (url, refl, safe, le);
  root_kept = root_kept_by names url;
}

name_file-Serves :
    (names : LoopNames) (url : Bytes)
    → IsSafe url
    → (name_file names (some url)).1 ≡ ParseRequestResult.file
    → Serves names (name_file names (some url)).0
unfolding name_file
name_file-Serves names url safe h = elim (Bool-cases (strcmp url (codes "/"))) [
  | inl slash ↦ rw slash (index-Serves names)
  | inr other ↦ elim (Bool-cases (leb (names.root_folder_length + length url) max_file_name)) [
    | inl fits ↦ rw (other, fits) (url-Serves names url safe (ground arith))
    | inr long ↦ absurd (ground arith)
  ]
]

accepted-Serves :
    (c : Conn) (names : LoopNames) (p : Option ProxyParameters) (url : Bytes)
    → get_url c.d.request ≡ some url
    → IsSafe url
    → (accepted c names p).2 ≡ ParseRequestResult.file
    → Serves names (accepted c names p).1
unfolding accepted
accepted-Serves c names none url e safe h = rw e (name_file-Serves names url safe (rw e at h))
accepted-Serves c names (some p) url e safe h = absurd (ground arith)

parsed-Serves :
    (fuel : ℕ) (c : Conn) (names : LoopNames) (input : Bytes) (out : HttpRequest × ParseResult)
    → parse fuel c.d.request input ≡ some out
    → (parsed c names out).2 ≡ ParseRequestResult.file
    → Serves names (parsed c names out).1
unfolding parsed
parsed-Serves fuel c names input (r, ParseResult.finish_ok) e h =
    let (url, found, safe) = parse-IsSafe fuel c.d.request input e in
    accepted-Serves (with_request r c) names (find_proxy r names.proxies) url found safe h
parsed-Serves fuel c names input (r, ParseResult.need_more_data) e h = absurd (ground arith)
parsed-Serves fuel c names input (r, ParseResult.finish_invalid) e h = absurd (ground arith)

region-Serves :
    (c : Conn) (names : LoopNames) (g : Option Region) {out : Conn × LoopNames × ParseRequestResult}
    → parse_region c names g ≡ some out
    → out.2 ≡ ParseRequestResult.file
    → Serves names out.1
unfolding parse_region
region-Serves c names none {out} e h = absurd (ground arith)
region-Serves c names (some g) {out} e h =
    let input = load c.d.buffer g.offset g.size in
    elim (Option-cases (parse (parse_fuel g.size) c.d.request input)) [
      | inl hangs ↦ absurd (ground arith)
      | inr (q, k) ↦
          let same : parsed c names q ≡ out = ground arith in
          subst (λ o. Serves names o.1) same
            (parsed-Serves (parse_fuel g.size) c names input q k (ap (λ o. o.2) same ∙ h))
    ]

-- A request that `parseRequest` takes for a file: the name in the loop's buffer is that of the root
-- folder followed by "index.html" or by a URL that is safe and fits, and the name of the root folder
-- is still what it was, if the buffer held it in full.
pub parse_request-Serves :
    (c : Conn) (names : LoopNames) {out : Conn × LoopNames × ParseRequestResult}
    → parse_request c names ≡ some out
    → out.2 ≡ ParseRequestResult.file
    → Serves names out.1
unfolding parse_request
parse_request-Serves c names {out} e h = region-Serves c names (start_read c.d.buffer) e h
