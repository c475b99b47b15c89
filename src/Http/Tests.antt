-- ===== src/Http/Tests.antt =====
-- Runs of http.go, and instances of the theorems.
use sqlog.Base.{ℕ, ◌+◌, ◌≡◌, refl, none, some, List, [], ◌∷◌, Bytes, codes, arith}
use sqlog.Base.Int.{ℤ, pos, negsuc}
use sqlog.Base.Decimal.{format_int}
use sqlog.Sqlite.Query.Levels.Choice.{error, warn, spelling}
use sqlog.Api.{
  TicksInput, EntriesInput, failed, answered, StorageWithApi, no_output, ask_entries, ask_ticks,
  ask_result, ask_cancel,
}
use sqlog.Http.{
  Response, json, static_file, nothing, bad_request, get_int, serve, serve_result, serve_cancel,
  entries_input, ticks_input, as_payload, sent, send_json,
}
use sqlog.Http.Numbers.{with_value, serve-clamp}
use sqlog.Http.Requests.{entries_query, ticks_query, answer_json, serve-query}

-- A storage that counts its queries, and knows no task.
abbrev counting : StorageWithApi ℕ Bytes
counting = record {
  ticks = λ input st. (answered (some no_output), st + 1);
  entries = λ input st. (failed input.expr, st + 1);
  result = λ id st. (answered none, st + 1);
  cancel = λ id st. (none, st);
}

at_path : Bytes → Response Bytes × ℕ
at_path path = serve (some counting) (record { path = path; query = [] }) 0

routes :
    (at_path (codes "/logs/api/ticks") ≡ (json (some no_output), 1))
    × ((at_path (codes "/logs/api/result") ≡ (json none, 1))
        × ((at_path (codes "/logs/api/cancel") ≡ (nothing, 0))
            × ((at_path (codes "/logs/js/app.js") ≡ (static_file (codes "app.js"), 0))
                × (at_path (codes "/logs/index") ≡ (static_file [], 0)))))
unfolding at_path serve
routes = (refl, (refl, (refl, (refl, refl))))

abbrev numbers : List (Bytes × Bytes)
numbers =
    (codes "a", codes "-7")
    ∷ (codes "b", codes "99999999999")
    ∷ (codes "c", codes "-99999999999")
    ∷ (codes "d", codes "7x")
    ∷ (codes "e", codes "+12")
    ∷ []

read_numbers :
    (get_int 32 (codes "a") numbers ≡ negsuc 6)
    × ((get_int 32 (codes "b") numbers ≡ pos 2147483647)
        × ((get_int 32 (codes "c") numbers ≡ negsuc 2147483647)
            × ((get_int 32 (codes "d") numbers ≡ pos 0)
                × (get_int 64 (codes "e") numbers ≡ pos 12))))
unfolding get_int
read_numbers = (refl, (refl, (refl, (refl, refl))))

-- A storage whose error of `Cancel`, and whose state behind `Result`, is the number it is asked for.
abbrev echoing : StorageWithApi ℤ ℤ
echoing = record {
  ticks = λ input st. (failed st, st);
  entries = λ input st. (failed st, st);
  result = λ id st. (answered none, id);
  cancel = λ id st. (some id, st);
}

serve-clamp_example :
    let at = with_value [] (codes "-99999999999") in
    (serve_result (some echoing) (at (codes "id")) (pos 0) ≡ (json none, negsuc 2147483647))
    × (serve_cancel (some echoing) (at (codes "id")) (pos 0)
        ≡ (bad_request (negsuc 2147483647), pos 0))
    × ((entries_input (at (codes "epoch"))).epoch_start ≡ negsuc 99999999998)
    × ((entries_input (at (codes "nanos"))).nanos_start ≡ negsuc 99999999998)
    × ((entries_input (at (codes "limit"))).max_result ≡ negsuc 99999999998)
    × ((ticks_input (at (codes "epoch"))).epoch_end ≡ negsuc 99999999998)
    × ((ticks_input (at (codes "interval"))).interval_sec ≡ negsuc 99999999998)
    × ((ticks_input (at (codes "limit"))).max_result ≡ negsuc 99999999998)
unfolding format_int sent as_payload ask_result ask_cancel send_json
serve-clamp_example = serve-clamp (some echoing) (negsuc 99999999998) [] (pos 0) (omega arith)

abbrev page : EntriesInput
page = record {
  expr = codes "a:1";
  level = codes "warn" ∷ codes "error" ∷ [];
  direction = codes "before";
  epoch_start = pos 1700000000;
  nanos_start = pos 5;
  max_result = negsuc 0;
}

abbrev series : TicksInput
series = record {
  expr = [];
  level = [];
  epoch_end = pos 0;
  interval_sec = pos 60;
  max_result = pos 100;
}

serve-query_example :
    (serve
        (some counting)
        (record {
          path = codes "/api/x/api/entries";
          query = entries_query page (warn ∷ error ∷ []);
        })
        0
      ≡ (
        answer_json (some counting) (ask_entries (some counting) page 0).0,
        (ask_entries (some counting) page 0).1,
      ))
    × (serve
          (some counting)
          (record { path = codes "/api/x/api/ticks"; query = ticks_query series [] })
          0
        ≡ (
          answer_json (some counting) (ask_ticks (some counting) series 0).0,
          (ask_ticks (some counting) series 0).1,
        ))
unfolding spelling
serve-query_example =
    serve-query (some counting) (codes "/api/x") page series (warn ∷ error ∷ []) [] 0 refl refl
      (omega arith, omega arith, omega arith) (omega arith, omega arith, omega arith)
