-- ===== src/Sidecar/PeerAddrs.antt =====
-- The addresses that the sidecar gives a new node, as the node's own server reads them.
use raft_implementation.Prelude.{
  ℕ, ◌≡◌, inl, inr, refl, sym, ap, ◌∙◌, true, arith, String, Bool-cases, eq_iff, ◌&&◌, Option, none,
  some, List, [], ◌∷◌, ◌++◌, map, str_eq, if◌then◌else◌, any, GoMap, insert, string_eq, All,
  if-elim, ◌<>◌, trim_space, trim_left, trim_right, trim_left-cons, trim_right-decimal, split_on,
  join_with, split_on-join_with, cut_at, cut_at-append, is_free, is_free-append, digits-IsFree,
  decimal,
}
use text.Mathlib.TextLemmas.{cons-append}
use raft_implementation.Sidecar.Registry.{NodeDef}
use raft_implementation.Sidecar.Docker.{http_pair, build_peer_http_addrs}
use raft_implementation.Kv.Server.Addrs.{
  split_non_empty, add_pair, add_pairs, parse_peer_http_addrs,
}

-- An id without a comma, an equals sign or spaces at its ends.
abbrev pub IsId : String → Type 0
IsId id = (is_free 44 id ≡ true) × (is_free 61 id ≡ true) × (trim_space id ≡ id)

local_addr : (port : ℕ) → trim_space ("localhost:" <> decimal port) ≡ "localhost:" <> decimal port
unfolding trim_space
local_addr port =
    let e = cons-append "l" "ocalhost:" (decimal port) in
    ap trim_right (ap trim_left e ∙ trim_left-cons "l" ("ocalhost:" <> decimal port) refl ∙ sym e)
    ∙ trim_right-decimal "localhost:" port

cut_at-http_pair :
    (id : String) (port : ℕ)
    → IsId id
    → cut_at 61 (http_pair id port) ≡ some (id, "localhost:" <> decimal port)
cut_at-http_pair id port h =
    ap (λ s. cut_at 61 (id <> s)) (cons-append "=" "localhost:" (decimal port))
    ∙ cut_at-append "=" id ("localhost:" <> decimal port) h.1

decimal-free : (port : ℕ) → is_free 44 (decimal port) ≡ true
unfolding decimal
decimal-free port = digits-IsFree "," port port (inl (omega arith))

http_pair-free : (id : String) (port : ℕ) → IsId id → is_free 44 (http_pair id port) ≡ true
unfolding is_free
http_pair-free id port h =
    is_free-append 44 id ("=localhost:" <> decimal port)
    ∙ ap (λ b. b && is_free 44 ("=localhost:" <> decimal port)) h.0
    ∙ is_free-append 44 "=localhost:" (decimal port)
    ∙ decimal-free port

-- What the server stores for each pair.
abbrev Pairs : Type 0
Pairs = List (String × ℕ)

abbrev printed_pairs : Pairs → List String
printed_pairs ps = map (λ p. http_pair p.0 p.1) ps

unfoldable pub address_map : Pairs → GoMap String String → GoMap String String
address_map [] m = m
address_map ((id, port) ∷ ps) m = address_map ps (insert id ("localhost:" <> decimal port) m)

abbrev AllIds : Pairs → Type 0
AllIds ps = All (λ p. IsId p.0) ps

add_pairs-printed :
    (ps : Pairs) (m : GoMap String String)
    → AllIds ps
    → add_pairs (printed_pairs ps) m ≡ address_map ps m
unfolding add_pairs address_map
add_pairs-printed [] m h = refl
add_pairs-printed ((id, port) ∷ ps) m h =
    let one : add_pair m (cut_at 61 (http_pair id port))
        ≡ insert id ("localhost:" <> decimal port) m =
      ap (add_pair m) (cut_at-http_pair id port h.0)
      ∙ ap (λ k. insert k (trim_space ("localhost:" <> decimal port)) m) h.0.2
      ∙ ap (λ v. insert id v m) (local_addr port) in
    ap (add_pairs (printed_pairs ps)) one
    ∙ add_pairs-printed ps (insert id ("localhost:" <> decimal port) m) h.1

printed_pairs-All : (ps : Pairs) → AllIds ps → All (λ s. is_free 44 s ≡ true) (printed_pairs ps)
printed_pairs-All [] h = tt
printed_pairs-All (p ∷ ps) h = (http_pair-free p.0 p.1 h.0, printed_pairs-All ps h.1)

abbrev first_cut : List String → Option (String × String)
first_cut [] = none
first_cut (x ∷ xs) = cut_at 61 x

no_cut : (x : String × String) → some x ≡ none → ⊥
no_cut x h = ground arith

parse-printed :
    (p : String × ℕ) (ps : Pairs)
    → AllIds (p ∷ ps)
    → parse_peer_http_addrs (join_with "," (printed_pairs (p ∷ ps))) ≡ address_map (p ∷ ps) []
unfolding parse_peer_http_addrs split_non_empty cut_at split_on
parse-printed p ps h =
    let raw = join_with "," (printed_pairs (p ∷ ps)) in
    let parts : split_on 44 raw ≡ printed_pairs (p ∷ ps) =
      split_on-join_with "," (http_pair p.0 p.1) (printed_pairs ps) (http_pair-free p.0 p.1 h.0)
        (printed_pairs-All ps h.1) in
    elim (Bool-cases (str_eq raw "")) [
      | inl e ↦ absurd (
          no_cut _ (
            sym (cut_at-http_pair p.0 p.1 h.0)
            ∙ ap first_cut (sym parts ∙ ap (split_on 44) ((eq_iff raw "").0 e))))
      | inr e ↦ rw e (ap (λ xs. add_pairs xs []) parts) ∙ add_pairs-printed (p ∷ ps) [] h
    ]

parse-pairs :
    (ps : Pairs)
    → AllIds ps
    → parse_peer_http_addrs (join_with "," (printed_pairs ps)) ≡ address_map ps []
unfolding parse_peer_http_addrs split_non_empty address_map join_with add_pairs
parse-pairs [] h = refl
parse-pairs (p ∷ ps) h = parse-printed p ps h

-- The addresses of the registry, and the new one if its id is not there.
unfoldable pub known_pairs : List NodeDef → String → ℕ → Pairs
known_pairs nodes id port =
    let ps = map (λ n. (n.id, n.http_port)) nodes in
    if any (λ n. str_eq n.id id) nodes then ps else ps ++ (id, port) ∷ []

printed_nodes :
    (nodes : List NodeDef)
    → map (λ n. http_pair n.id n.http_port) nodes
      ≡ printed_pairs (map (λ n. (n.id, n.http_port)) nodes)
printed_nodes [] = refl
printed_nodes (n ∷ ns) = ap (λ xs. http_pair n.id n.http_port ∷ xs) (printed_nodes ns)

printed-append : (ps qs : Pairs) → printed_pairs (ps ++ qs) ≡ printed_pairs ps ++ printed_pairs qs
printed-append [] qs = refl
printed-append (p ∷ ps) qs = ap (λ xs. http_pair p.0 p.1 ∷ xs) (printed-append ps qs)

build-known_pairs :
    (nodes : List NodeDef) (id : String) (port : ℕ)
    → build_peer_http_addrs nodes id port
      ≡ join_with "," (printed_pairs (known_pairs nodes id port))
unfolding build_peer_http_addrs known_pairs
build-known_pairs nodes id port = elim (Bool-cases (any (λ n. str_eq n.id id) nodes)) [
  | inl e ↦ rw e (ap (join_with ",") (printed_nodes nodes))
  | inr e ↦ rw e (
      ap (join_with ",") (
        ap (λ xs. xs ++ http_pair id port ∷ []) (printed_nodes nodes)
        ∙ sym (printed-append (map (λ n. (n.id, n.http_port)) nodes) ((id, port) ∷ []))))
]

known_pairs-AllIds :
    (nodes : List NodeDef) (id : String) (port : ℕ)
    → All (λ n. IsId n.id) nodes
    → IsId id
    → AllIds (known_pairs nodes id port)
unfolding known_pairs
known_pairs-AllIds nodes id port h k =
    if-elim AllIds (any (λ n. str_eq n.id id) nodes) _ _ (λ e. ids nodes h) (λ e. ids_snoc nodes h)
  where
    ids : (ns : List NodeDef) → All (λ n. IsId n.id) ns → AllIds (map (λ n. (n.id, n.http_port)) ns)
    ids [] g = tt
    ids (n ∷ ns) g = (g.0, ids ns g.1)

    ids_snoc :
        (ns : List NodeDef)
        → All (λ n. IsId n.id) ns
        → AllIds (map (λ n. (n.id, n.http_port)) ns ++ (id, port) ∷ [])
    ids_snoc [] g = (k, tt)
    ids_snoc (n ∷ ns) g = (g.0, ids_snoc ns g.1)

-- If no id has a comma, an equals sign or spaces at its ends: what the node's server parses from
-- the text that the sidecar builds is the map of the registry's ids, and of the new id if it is
-- not there, to their local addresses.
pub parse-build :
    (nodes : List NodeDef) (id : String) (port : ℕ)
    → All (λ n. IsId n.id) nodes
    → IsId id
    → parse_peer_http_addrs (build_peer_http_addrs nodes id port)
      ≡ address_map (known_pairs nodes id port) []
parse-build nodes id port h k =
    ap parse_peer_http_addrs (build-known_pairs nodes id port)
    ∙ parse-pairs (known_pairs nodes id port) (known_pairs-AllIds nodes id port h k)
