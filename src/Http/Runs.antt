-- ===== src/Http/Runs.antt =====
-- volo-http/src: events on their way from a server to a client.
use volo.Base.{
  ◌≡◌, refl, true, false, List, [], ◌∷◌, ◌++◌, Option, arith, append-nil, none, some, map,
}
use volo.Base.Bytes.{Bytes, codes, eqb}
use volo.Base.Decimal.{parse_u64, parse_digits}
use mathlib.Core.Option.{bind}
use volo.Http.Sse.Pending.{
  add_line, empty, has_field, dispatch, add_field, split_colon, push_key, strip_space, add_data,
}
use volo.Balance.Hash.{decimal, digits}
use volo.Http.Sse.{lf, is_break}
use volo.Http.Sse.Server
use volo.Http.Sse.Server.{
  finalize, json, Setter, event, data_lines, id, retry, comment, KeepAliveStream, keep_alive,
}
use volo.Http.Sse.Reader
use volo.Http.Sse.Reader.{
  SseReader, given, data_frame, next_line, drain, read, drain_on, on_line, line_of, find_line,
  push_line, after_terminator, first_line, strip_bom, on_processed, process_line,
}
use volo.Http.Sse.Messages.{join, IsLine}
use volo.Http.Sse.Built.{all_lines, line, lines_of, Kept, nothing, IsSent}
use volo.Http.Sse.Writes.{AllSent}
use volo.Http.Sse.RoundTrip.{Message, Turn}
use volo.Http.Sse.Json.{read-json}
use volo.Http.Sse.Crlf.{read-split_crlf}

abbrev same_bytes : Bytes → Bytes
same_bytes b = b

abbrev ping : List Setter
ping =
    event (codes "ping")
    ∷ data_lines (codes "hi" ++ (10 ∷ codes "you"))
    ∷ id (codes "7")
    ∷ retry 3000000000
    ∷ comment (codes "c")
    ∷ []

-- Its bytes are given as the lines that they should be.
abbrev built_ping : Server.Event
built_ping = record {
  buffer = join (all_lines decimal ping);
  has_data = true;
  has_event = true;
  has_id = true;
  has_retry = true;
}

ping_built : Server.set_all decimal ping Server.new ≡ some built_ping
unfolding Server.set_all Server.set Server.new Server.field Server.put_field Server.put_lines
    Server.memchr_split Server.push_front bind is_break join all_lines lines_of line decimal digits
ping_built = refl

ping_sent : AllSent decimal ping
unfolding AllSent IsSent is_break parse_u64 parse_digits decimal digits
ping_sent = (tt, (tt, (tt, ((refl, refl), (tt, tt)))))

ping-Kept : Kept same_bytes (all_lines decimal ping)
unfolding Kept all_lines lines_of Server.memchr_split Server.push_front
ping-Kept = (refl, (refl, (refl, (refl, (refl, (refl, tt))))))

abbrev ping_message : Message decimal same_bytes
ping_message = record {
  setters = ping;
  event = built_ping;
  built = ping_built;
  sent = ping_sent;
  kept = ping-Kept;
}

-- The server waits, sends a keep-alive message, and then the event.
abbrev turns : List (Turn decimal same_bytes)
turns =
    record { now = 1; is_ready = false; message = none }
    ∷ record { now = 15; is_ready = true; message = none }
    ∷ record { now = 16; is_ready = false; message = some ping_message }
    ∷ []

abbrev alive : Option KeepAliveStream
alive = some (record { keep_alive = Server.keep_alive; alive_timer = 15 })

abbrev one : Server.Event
one = record Server.new { buffer = codes "data: 1"; has_data = true }

abbrev two : Server.Event
two = record Server.new { buffer = codes "data: 2"; has_data = true }

one_built : Server.set decimal (json (some (codes "1"))) Server.new ≡ some one
unfolding Server.set Server.put_json Server.new
one_built = refl

two_built : Server.set decimal (json (some (codes "2"))) Server.new ≡ some two
unfolding Server.set Server.put_json Server.new
two_built = refl

abbrev one_frame : List Bytes
one_frame = (finalize one ++ finalize two) ∷ []

read-json_example :
    (read same_bytes {E = Unit} (map data_frame one_frame) Reader.new).outcome
    ≡ given (record nothing { content = some ((codes "1" ++ lf) ++ codes "2") })
unfolding is_break
read-json_example =
    read-json decimal same_bytes Unit (codes "1") (codes "2") one two one_frame one_built two_built
      refl refl refl refl (append-nil (finalize one ++ finalize two))

abbrev hello : Bytes
hello = codes "ata: hi"

hello-IsLine : IsLine same_bytes (100 ∷ hello)
unfolding IsLine is_break
hello-IsLine = (omega arith, (refl, refl))

hello_sets : has_field (add_line (100 ∷ hello) empty) ≡ true
unfolding has_field add_line add_field split_colon push_key strip_space add_data eqb
hello_sets = refl

read-split_crlf_example :
    (read same_bytes {E = Unit}
      (data_frame ((100 ∷ hello) ++ (13 ∷ [])) ∷ data_frame (10 ∷ codes "id: 7") ∷ [])
      Reader.new).outcome
    ≡ given (dispatch (add_line (100 ∷ hello) empty))
read-split_crlf_example =
    read-split_crlf same_bytes Unit 100 hello (codes "id: 7") [] refl hello-IsLine hello_sets
