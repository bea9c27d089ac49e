-- ===== src/Thrift/Messages.antt =====
-- volo-thrift/src/message_wrapper.rs: the messages that a client and a server build.
use volo.Base.{ℕ, ◌≡◌, ◌≢◌, refl, [], Option, none, some}
use volo.Base.Bytes.{Bytes}
use volo.TtHeader.{server}
use volo.Framed.{Cx}
use volo.Thrift.{
  TMessageType, call, reply, exception, one_way, TMessageIdentifier, Payload, value, raised,
  ThriftMessage, Extensions, handle_ident, handle_decoded_msg_ident,
}
use volo.Thrift.RoundTrip.{IsConsistent}

unfoldable pub mk_client_msg : {U A : Type 0} → TMessageType → Bytes → ℕ → U → ThriftMessage U A
mk_client_msg message_type method seq_id msg = record {
  payload = value msg;
  meta = record { msg_type = message_type; method = method; seq_id = seq_id };
}

unfoldable pub type_of_resp : {U A : Type 0} → Payload U A → TMessageType
type_of_resp (value u) = reply
type_of_resp (raised a) = exception

-- What a server's context keeps of the request: a request without one was not decoded.
unfoldable pub ident_or_default : Option TMessageIdentifier → TMessageIdentifier
ident_or_default none = record { name = []; message_type = call; sequence_number = 0 }
ident_or_default (some i) = i

unfoldable pub mk_server_resp : {U A : Type 0} → Cx Extensions → Payload U A → ThriftMessage U A
mk_server_resp cx msg =
    let i = ident_or_default cx.within.ident in
    record {
      payload = msg;
      meta = record { msg_type = type_of_resp msg; method = i.name; seq_id = i.sequence_number };
    }

-- The messages that a server builds say what they hold, and so do a client's.
pub mk_server_resp-IsConsistent :
    {U A : Type 0} (cx : Cx Extensions) (v : Payload U A)
    → let m = mk_server_resp cx v in IsConsistent m.payload m.meta.msg_type
unfolding mk_server_resp type_of_resp
mk_server_resp-IsConsistent cx (value u) = tt
mk_server_resp-IsConsistent cx (raised a) = tt

pub mk_client_msg-IsConsistent :
    {U : Type 0} (A : Type 0) (t : TMessageType) (method : Bytes) (seq_id : ℕ) (u : U)
    → t ≢ exception
    → let m = mk_client_msg {A = A} t method seq_id u in IsConsistent m.payload m.meta.msg_type
unfolding mk_client_msg
mk_client_msg-IsConsistent A call method seq_id u h = tt
mk_client_msg-IsConsistent A reply method seq_id u h = tt
mk_client_msg-IsConsistent A one_way method seq_id u h = tt
mk_client_msg-IsConsistent A exception method seq_id u h = h refl

-- A server's answer has the method and the sequence id of the request that it has decoded.
pub mk_server_resp-handle_decoded_msg_ident :
    {U A : Type 0} (i : TMessageIdentifier) (cx : Cx Extensions) (v : Payload U A)
    → cx.role ≡ server
    → let m = mk_server_resp (handle_decoded_msg_ident i cx) v in
      (m.meta.seq_id ≡ i.sequence_number) × (m.meta.method ≡ i.name)
unfolding mk_server_resp handle_decoded_msg_ident handle_ident ident_or_default
mk_server_resp-handle_decoded_msg_ident i cx v h = rw (h) (refl, refl)
