-- ===== src/Http/Sse/Json.antt =====
-- volo-http/src/server/response/sse.rs: events that are built with `json`.
use volo.Base.{ℕ, ◌≡◌, sym, ◌∙◌, ap, ap₂, true, false, List, [], ◌∷◌, ◌++◌, some, map, append-nil}
use volo.Base.Bytes.{Bytes, concat}
use volo.Http.Sse.{data_key, lf, is_break}
use volo.Http.Sse.Server.{Event, new, json, put_json, set, finalize}
use volo.Http.Sse.Pending.{empty, has_field, dispatch, add_data, add_line, filter_empty}
use volo.Http.Sse.Reader
use volo.Http.Sse.Reader.{given, data_frame, read}
use volo.Http.Sse.Messages.{join, AreLines, read_unended}
use volo.Http.Sse.Settled.{add_lines}
use volo.Http.Sse.Built.{line, nothing, add_data_line}
use volo.Http.Sse.Writes.{data_line}

finalize-json :
    (format : ℕ → Bytes) (p : Bytes) (e : Event)
    → set format (json (some p)) new ≡ some e
    → finalize e ≡ line data_key p ++ lf
unfolding set put_json new finalize line
finalize-json format p e h = cc

two_lines :
    (p q : Bytes)
    → add_lines (line data_key p ∷ line data_key q ∷ []) empty
      ≡ record empty { bit_data = true; content = (p ++ lf) ++ q }
unfolding add_lines empty add_data
two_lines p q =
    ap (λ s. add_line (line data_key q) s) (add_data_line p empty)
    ∙ add_data_line q (add_data p empty)

-- Two events in a row that are built with `json` alone, from payloads on one line, and whose lines
-- the decoding of bytes keeps: a client reads them as one event, whose data are the two payloads
-- with a line break between them.
pub read-json :
    (format : ℕ → Bytes) (lossy : Bytes → Bytes) (E : Type 0) (p q : Bytes) (a b : Event)
    (chunks : List Bytes)
    → set format (json (some p)) new ≡ some a
    → set format (json (some q)) new ≡ some b
    → is_break p ≡ false
    → is_break q ≡ false
    → lossy (line data_key p) ≡ line data_key p
    → lossy (line data_key q) ≡ line data_key q
    → concat chunks ≡ finalize a ++ finalize b
    → (read lossy {E = E} (map data_frame chunks) Reader.new).outcome
      ≡ given (record nothing { content = some ((p ++ lf) ++ q) })
unfolding Reader.new empty has_field nothing AreLines join dispatch filter_empty
read-json format lossy E p q a b chunks first second one two keep kept cut =
    let ls = line data_key p ∷ line data_key q ∷ [] in
    let are : AreLines lossy ls = (data_line p lossy one keep, (data_line q lossy two kept, tt)) in
    let both =
      cut
      ∙ ap₂ (λ x y. x ++ y) (finalize-json format p a first) (finalize-json format q b second)
      ∙ ap (λ y. (line data_key p ++ lf) ++ y) (sym (append-nil (line data_key q ++ lf))) in
    read_unended lossy E ls chunks [] true are (ap has_field (two_lines p q)) both
    ∙ ap (λ s. given (dispatch s)) (two_lines p q)
