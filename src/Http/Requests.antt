-- ===== src/Http/Requests.antt =====
-- A request that is written for an input reaches the storage with it, wherever the handler of
-- http.go is mounted.
use sqlog.Base.{
  ℕ, ◌≡◌, refl, sym, ap, ◌∙◌, false, Option, none, some, List, [], ◌∷◌, ◌++◌, map, ◌==◌, Bytes,
  codes, All,
}
use sqlog.Base.Int.{ℤ}
use sqlog.Base.Decimal.{parse_int, format_int, IsInt64, parse_int-format_int}
use sqlog.Expr.Text.{cut_prefix, is_empty}
use sqlog.Sqlite.Db.Names.{split}
use sqlog.Sqlite.Query.Levels.Choice.{Level, error, warn, info, debug, spelling}
use sqlog.Api.{
  TicksInput, EntriesInput, Output, Answer, failed, answered, StorageWithApi, ask_entries,
  ask_ticks,
}
use sqlog.Http.{
  Response, bad_request, json, query_value, value_of, get_int, levels_of, ticks_input,
  entries_input, after_api, send_json, as_payload, sent, serve_ticks, serve_entries, serve_api,
  serve, static_file, static_path,
}

-- The names of levels in a query: separated by commas.
unfoldable pub level_text : List Level → Bytes
unfolding spelling
level_text [] = []
level_text (l ∷ []) = spelling l
level_text (l ∷ m ∷ ls) = spelling l ++ (codes "," ++ level_text (m ∷ ls))

-- The values of a request for a page, and for a series.
unfoldable pub entries_query : EntriesInput → List Level → List (Bytes × Bytes)
unfolding level_text format_int
entries_query input ls =
    (codes "expr", input.expr)
    ∷ (codes "level", level_text ls)
    ∷ (codes "dir", input.direction)
    ∷ (codes "epoch", format_int input.epoch_start)
    ∷ (codes "nanos", format_int input.nanos_start)
    ∷ (codes "limit", format_int input.max_result)
    ∷ []

unfoldable pub ticks_query : TicksInput → List Level → List (Bytes × Bytes)
unfolding level_text format_int
ticks_query input ls =
    (codes "expr", input.expr)
    ∷ (codes "level", level_text ls)
    ∷ (codes "epoch", format_int input.epoch_end)
    ∷ (codes "interval", format_int input.interval_sec)
    ∷ (codes "limit", format_int input.max_result)
    ∷ []

split-append :
    (s t : Bytes)
    → All (λ c. (c == b',') ≡ false) s
    → split b',' (s ++ (codes "," ++ t)) ≡ (s, (split b',' t).0 ∷ (split b',' t).1)
unfolding split
split-append [] t h = refl
split-append (c ∷ s) t h = rw (split-append s t h.1, h.0) refl

split-word : (s : Bytes) → All (λ c. (c == b',') ≡ false) s → split b',' s ≡ (s, [])
unfolding split
split-word [] h = refl
split-word (c ∷ s) h = rw (split-word s h.1, h.0) refl

spelling-plain : (l : Level) → All (λ c. (c == b',') ≡ false) (spelling l)
unfolding spelling
spelling-plain error = (refl, (refl, (refl, (refl, (refl, tt)))))
spelling-plain warn = (refl, (refl, (refl, (refl, tt))))
spelling-plain info = (refl, (refl, (refl, (refl, tt))))
spelling-plain debug = (refl, (refl, (refl, (refl, (refl, tt)))))

split-level_text :
    (l : Level) (ls : List Level) → split b',' (level_text (l ∷ ls)) ≡ (spelling l, map spelling ls)
unfolding level_text
split-level_text l [] = split-word (spelling l) (spelling-plain l)
split-level_text l (m ∷ ls) =
    split-append (spelling l) (level_text (m ∷ ls)) (spelling-plain l)
    ∙ ap (λ (p : Bytes × List Bytes). (spelling l, p.0 ∷ p.1)) (split-level_text m ls)

level_text-some : (l : Level) (ls : List Level) → is_empty (level_text (l ∷ ls)) ≡ false
unfolding level_text spelling is_empty
level_text-some error [] = refl
level_text-some error (m ∷ ls) = refl
level_text-some warn [] = refl
level_text-some warn (m ∷ ls) = refl
level_text-some info [] = refl
level_text-some info (m ∷ ls) = refl
level_text-some debug [] = refl
level_text-some debug (m ∷ ls) = refl

levels_of-level_text : (ls : List Level) → levels_of (level_text ls) ≡ map spelling ls
unfolding levels_of is_empty level_text
levels_of-level_text [] = refl
levels_of-level_text (l ∷ ls) = rw (level_text-some l ls, split-level_text l ls) refl

value-format_int : (z : ℤ) → IsInt64 z → value_of (parse_int 64 (format_int z)) ≡ z
unfolding value_of
value-format_int z h = ap value_of (parse_int-format_int z h)

entries_input-query :
    (input : EntriesInput) (ls : List Level)
    → input.level ≡ map spelling ls
    → IsInt64 input.epoch_start
    → IsInt64 input.nanos_start
    → IsInt64 input.max_result
    → entries_input (entries_query input ls) ≡ input
unfolding entries_input entries_query get_int query_value
entries_input-query input ls names e n m =
    ap (λ l. made l (value epoch) (value nanos) (value limit)) (levels_of-level_text ls ∙ sym names)
    ∙ ap (λ z. made input.level z (value nanos) (value limit)) (value-format_int epoch e)
    ∙ ap (λ z. made input.level epoch z (value limit)) (value-format_int nanos n)
    ∙ ap (λ z. made input.level epoch nanos z) (value-format_int limit m)
  where
    epoch : ℤ
    epoch = input.epoch_start

    nanos : ℤ
    nanos = input.nanos_start

    limit : ℤ
    limit = input.max_result

    value : ℤ → ℤ
    value z = value_of (parse_int 64 (format_int z))

    made : List Bytes → ℤ → ℤ → ℤ → EntriesInput
    made l e n m = record {
      expr = input.expr;
      level = l;
      direction = input.direction;
      epoch_start = e;
      nanos_start = n;
      max_result = m;
    }

ticks_input-query :
    (input : TicksInput) (ls : List Level)
    → input.level ≡ map spelling ls
    → IsInt64 input.epoch_end
    → IsInt64 input.interval_sec
    → IsInt64 input.max_result
    → ticks_input (ticks_query input ls) ≡ input
unfolding ticks_input ticks_query get_int query_value
ticks_input-query input ls names e n m =
    ap (λ l. made l (value epoch) (value interval) (value limit))
      (levels_of-level_text ls ∙ sym names)
    ∙ ap (λ z. made input.level z (value interval) (value limit)) (value-format_int epoch e)
    ∙ ap (λ z. made input.level epoch z (value limit)) (value-format_int interval n)
    ∙ ap (λ z. made input.level epoch interval z) (value-format_int limit m)
  where
    epoch : ℤ
    epoch = input.epoch_end

    interval : ℤ
    interval = input.interval_sec

    limit : ℤ
    limit = input.max_result

    value : ℤ → ℤ
    value z = value_of (parse_int 64 (format_int z))

    made : List Bytes → ℤ → ℤ → ℤ → TicksInput
    made l e n m = record {
      expr = input.expr;
      level = l;
      epoch_end = e;
      interval_sec = n;
      max_result = m;
    }

after_api-cons : (c : ℕ) (s name : Bytes) → after_api s ≡ some name → after_api (c ∷ s) ≡ some name
unfolding after_api
after_api-cons c s name h =
    ap
      (λ (o : Option Bytes). elim o as (λ _. Option Bytes) [
        | some r ↦ some r
        | none ↦ cut_prefix (codes "/api/") (c ∷ s)
      ])
      h

after_api-append :
    (mount name : Bytes)
    → after_api (codes "/api/" ++ name) ≡ some name
    → after_api (mount ++ (codes "/api/" ++ name)) ≡ some name
after_api-append [] name h = h
after_api-append (c ∷ mount) name h = after_api-cons c _ name (after_api-append mount name h)

module _ {S E : Type 0} (storage : Option (StorageWithApi S E)) where
  -- What is sent for an answer of the storage.
  unfoldable pub answer_json : Answer E (Option (Output E)) → Response E
  answer_json (failed e) = bad_request e
  answer_json (answered o) = json o

  sent-answer :
      (r : Answer E (Option (Output E)) × S) → sent (as_payload r) ≡ (answer_json r.0, r.1)
  unfolding sent as_payload send_json answer_json
  sent-answer (failed e, st) = refl
  sent-answer (answered o, st) = refl

  serve-api :
      (mount name : Bytes) (q : List (Bytes × Bytes)) (st : S)
      → after_api (codes "/api/" ++ name) ≡ some name
      → serve storage (record { path = mount ++ (codes "/api/" ++ name); query = q }) st
        ≡ serve_api storage name q st
  unfolding serve
  serve-api mount name q st h =
      ap
        (λ (o : Option Bytes). elim o as (λ _. Response E × S) [
          | some n ↦ serve_api storage n q st
          | none ↦ (static_file (static_path (mount ++ (codes "/api/" ++ name))), st)
        ])
        (after_api-append mount name h)

  -- Wherever the handler is mounted, and whatever page or series is asked for, with numbers of
  -- int64 and with names of levels: the request that is written for it reaches the storage with
  -- just this input. What the storage answers is sent, an error as a bad request, and its state is
  -- what it left.
  pub serve-query :
      (mount : Bytes) (page : EntriesInput) (series : TicksInput) (ls ms : List Level) (st : S)
      → page.level ≡ map spelling ls
      → series.level ≡ map spelling ms
      → IsInt64 page.epoch_start × IsInt64 page.nanos_start × IsInt64 page.max_result
      → IsInt64 series.epoch_end × IsInt64 series.interval_sec × IsInt64 series.max_result
      → (serve storage
            (record { path = mount ++ codes "/api/entries"; query = entries_query page ls })
            st
          ≡ (answer_json (ask_entries storage page st).0, (ask_entries storage page st).1))
        × (serve storage
              (record { path = mount ++ codes "/api/ticks"; query = ticks_query series ms })
              st
            ≡ (answer_json (ask_ticks storage series st).0, (ask_ticks storage series st).1))
  unfolding serve_api serve_entries serve_ticks after_api
  serve-query mount page series ls ms st h k a b = (
    serve-api mount (codes "entries") (entries_query page ls) st refl
        ∙ sent-answer (ask_entries storage (entries_input (entries_query page ls)) st)
        ∙ ap (λ i. (answer_json (ask_entries storage i st).0, (ask_entries storage i st).1))
            (entries_input-query page ls h a.0 a.1 a.2),
    serve-api mount (codes "ticks") (ticks_query series ms) st refl
        ∙ sent-answer (ask_ticks storage (ticks_input (ticks_query series ms)) st)
        ∙ ap (λ i. (answer_json (ask_ticks storage i st).0, (ask_ticks storage i st).1))
            (ticks_input-query series ms k b.0 b.1 b.2),
  )
