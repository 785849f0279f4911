-- ===== src/Kv/Server/Addrs.antt =====
-- cmd/kvstore/main.go: the settings read from the environment. os.Getenv is an argument: the text of
-- a variable, "" if it is not set. strconv.Atoi is a parameter.
use raft_implementation.Prelude.{
  ℕ, String, ◌&&◌, not, Option, none, some, List, [], ◌∷◌, ltb, str_eq, if◌then◌else◌, GoMap,
  insert, string_eq, ◌<>◌, split_on, cut_at, trim_space,
}
use text.Mathlib.Text.{starts_with}

-- The separator is one character, given by its code.
unfoldable pub split_non_empty : String → ℕ → List String
unfolding split_on
split_non_empty s sep = if str_eq s "" then [] else split_on sep s

-- One round of the loop of `parsePeerHTTPAddrs`: 61 is the code of the equals sign.
abbrev pub add_pair : GoMap String String → Option (String × String) → GoMap String String
add_pair m none = m
add_pair m (some (k, v)) = insert (trim_space k) (trim_space v) m

unfoldable pub add_pairs : List String → GoMap String String → GoMap String String
unfolding cut_at
add_pairs [] m = m
add_pairs (p ∷ ps) m = add_pairs ps (add_pair m (cut_at 61 p))

-- 44 is the code of the comma.
unfoldable pub parse_peer_http_addrs : String → GoMap String String
unfolding split_non_empty add_pairs
parse_peer_http_addrs raw = add_pairs (split_non_empty raw 44) []

-- The number, if it is positive; a negative one is none.
unfoldable pub env_int_or_default : (atoi : String → Option ℕ) → String → ℕ → ℕ
env_int_or_default atoi v default = elim (atoi v) [
  | none ↦ default
  | some n ↦ if not (str_eq v "") && ltb 0 n then n else default
]

-- The address that the other nodes use for this one.
unfoldable pub derive_self_addr : String → String → String → String
derive_self_addr node_rpc_addr node_id raft_rpc_addr =
    if str_eq node_rpc_addr "" && starts_with raft_rpc_addr ":"
    then node_id <> raft_rpc_addr
    else node_rpc_addr
