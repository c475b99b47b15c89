-- ===== src/Http.antt =====
-- http.go: the requests that the handler of sqlog answers. A request is its path and the values of
-- its query; net/http, the file server and the encoding to JSON are left out, so that a response is
-- what is encoded, or the path that the file server is given.
pub mod Numbers
pub mod Requests
mod Tests
use sqlog.Base.{
  ℕ, Bool, true, false, ◌||◌, Option, none, some, List, [], ◌∷◌, ◌++◌, ◌==◌, if◌then◌else◌, Bytes,
  codes, bytes_eq,
}
use sqlog.Base.Int.{ℤ, pos}
use sqlog.Base.Decimal.{parse_int, Parsed, parsed, bad_syntax, out_of_range}
use sqlog.Expr.Text.{cut_prefix, is_empty}
use sqlog.Sqlite.Db.Names.{ext, split}
use sqlog.Api.{
  TicksInput, EntriesInput, Output, Answer, failed, answered, StorageWithApi, ask_entries,
  ask_ticks, ask_result, ask_cancel,
}

pub record Request : Type 0 where
  pub path : Bytes
  pub query : List (Bytes × Bytes)

-- What sendJson is given: nil, or an *Output, which may be nil as well and is encoded then too.
pub data Payload (E : Type 0) : Type 0 where
  nil : Payload E
  output : Option (Output E) → Payload E

pub data Response (E : Type 0) : Type 0 where
  bad_request : E → Response E
  json : Option (Output E) → Response E
  no_content : Response E
  static_file : Bytes → Response E
  nothing : Response E

-- q.Get(key)
unfoldable pub query_value : Bytes → List (Bytes × Bytes) → Bytes
query_value key [] = []
query_value key ((k, v) ∷ q) = let rest = query_value key q in if bytes_eq k key then v else rest

-- getInt, getInt64 and getInt32, for 64, 64 and 32 bits: the value that comes with an error is used.
unfoldable pub value_of : Parsed → ℤ
value_of (parsed z) = z
value_of bad_syntax = pos 0
value_of (out_of_range z) = z

unfoldable pub get_int : ℕ → Bytes → List (Bytes × Bytes) → ℤ
unfolding query_value parse_int value_of
get_int bits key q = value_of (parse_int bits (query_value key q))

unfoldable pub levels_of : Bytes → List Bytes
unfolding split is_empty
levels_of level =
    if is_empty level then [] else (let (part, parts) = split b',' level in part ∷ parts)

unfoldable pub ticks_input : List (Bytes × Bytes) → TicksInput
unfolding query_value get_int levels_of
ticks_input q = record {
  expr = query_value (codes "expr") q;
  level = levels_of (query_value (codes "level") q);
  epoch_end = get_int 64 (codes "epoch") q;
  interval_sec = get_int 64 (codes "interval") q;
  max_result = get_int 64 (codes "limit") q;
}

unfoldable pub entries_input : List (Bytes × Bytes) → EntriesInput
unfolding query_value get_int levels_of
entries_input q = record {
  expr = query_value (codes "expr") q;
  level = levels_of (query_value (codes "level") q);
  direction = query_value (codes "dir") q;
  epoch_start = get_int 64 (codes "epoch") q;
  nanos_start = get_int 64 (codes "nanos") q;
  max_result = get_int 64 (codes "limit") q;
}

-- What stands behind the last "/api/".
unfoldable pub after_api : Bytes → Option Bytes
unfolding cut_prefix
after_api [] = none
after_api (c ∷ s) = elim (after_api s) [
  | some r ↦ some r
  | none ↦ cut_prefix (codes "/api/") (c ∷ s)
]

unfoldable pub has_slash : Bytes → Bool
has_slash [] = false
has_slash (c ∷ s) = c == b'/' || has_slash s

-- path.Base of a path that ends in a name
unfoldable pub base_name : Bytes → Bytes
unfolding has_slash
base_name [] = []
base_name (c ∷ s) =
    let rest = base_name s in if has_slash s then rest else if c == b'/' then s else c ∷ s

-- The path that the file server is given.
unfoldable pub static_path : Bytes → Bytes
unfolding base_name ext
static_path p =
    let e = ext (base_name p) in
    if bytes_eq e (codes ".html") || (bytes_eq e (codes ".css") || bytes_eq e (codes ".js"))
    then base_name p
    else []

unfoldable pub send_json : {E : Type 0} → Answer E (Payload E) → Response E
send_json (failed e) = bad_request e
send_json (answered nil) = no_content
send_json (answered (output o)) = json o

module _ {S E : Type 0} where
  unfoldable pub as_payload : Answer E (Option (Output E)) × S → Answer E (Payload E) × S
  as_payload (failed e, st) = (failed e, st)
  as_payload (answered o, st) = (answered (output o), st)

  unfoldable pub sent : Answer E (Payload E) × S → Response E × S
  unfolding send_json
  sent (a, st) = (send_json a, st)

  module _ (storage : Option (StorageWithApi S E)) where
    unfoldable pub serve_ticks : List (Bytes × Bytes) → S → Response E × S
    unfolding sent as_payload ask_ticks ticks_input
    serve_ticks q st = sent (as_payload (ask_ticks storage (ticks_input q) st))

    unfoldable pub serve_entries : List (Bytes × Bytes) → S → Response E × S
    unfolding sent as_payload ask_entries entries_input
    serve_entries q st = sent (as_payload (ask_entries storage (entries_input q) st))

    unfoldable pub serve_result : List (Bytes × Bytes) → S → Response E × S
    unfolding sent as_payload ask_result get_int
    serve_result q st = sent (as_payload (ask_result storage (get_int 32 (codes "id") q) st))

    -- No path of HttpHandler leads to this one.
    unfoldable pub serve_cancel : List (Bytes × Bytes) → S → Response E × S
    unfolding send_json ask_cancel get_int
    serve_cancel q st =
        let (failure, st') = ask_cancel storage (get_int 32 (codes "id") q) st in
        (
          send_json (elim failure as (λ _. Answer E (Payload E)) [
            | some e ↦ failed e
            | none ↦ answered nil
          ]),
          st',
        )

    unfoldable pub serve_api : Bytes → List (Bytes × Bytes) → S → Response E × S
    unfolding serve_ticks serve_entries serve_result
    serve_api name q st =
        if bytes_eq name (codes "ticks")
        then serve_ticks q st
        else if bytes_eq name (codes "entries")
        then serve_entries q st
        else if bytes_eq name (codes "result")
        then serve_result q st
        else (nothing, st)

    -- The function of HttpHandler.
    unfoldable pub serve : Request → S → Response E × S
    unfolding after_api serve_api static_path
    serve r st = elim (after_api r.path) [
      | some name ↦ serve_api name r.query st
      | none ↦ (static_file (static_path r.path), st)
    ]
