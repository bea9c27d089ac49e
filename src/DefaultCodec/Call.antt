-- ===== src/DefaultCodec/Call.antt =====
-- volo-thrift/src/codec/default/mod.rs: a request from the client's default codec to the server's.
use volo.Base.{ℕ, ◌^◌, ◌<◌, ◌≡◌, refl, ◌∙◌, ap, true, [], ◌∷◌, ◌++◌, Option, none, some}
use volo.Base.Bytes.{Bytes}
use volo.TtHeader.{client, server, Externals}
use volo.TtHeader.RoundTrip.{Fits}
use volo.TtHeader.Outer
use volo.TtHeader.Outer.{Context, TtHeaderEncoder, TtHeaderDecoder, encode, size, decode_async}
use volo.TtHeader.Outer.Request.{IsRequest, decode_async-encode}
use volo.Framed
use volo.Framed.{FramedEncoder, FramedDecoder}
use volo.Thrift.{
  Protocol, ThriftMessage, ThriftError, Pilota, ThriftCodec, message_size, protocol_of,
}
use volo.Thrift.RoundTrip.{IsProtocol, IsConsistent}
use volo.Thrift
use volo.DefaultCodec
use volo.DefaultCodec.{
  Framing, frame_cx, framed, Writer, WriteResult, written, encode_failed, write_failed,
  DefaultEncoder, DefaultDecoder, write_bytes, write_encoded, encode_sized, default_encode,
  with_reader, decode_from, default_decode,
}
use volo.DefaultCodec.Frame.{noted, framed-Writes}

module _ {A M U V Y W : Type 0} (ext : Externals A M)
    (pilota pilota_async : Protocol → Pilota U V Y) (out : Writer W) where
  -- The server reads the message, is left exactly behind it, and knows from its header which
  -- service is called, and by whom.
  pub record IsRead (kind : Protocol) (d : DefaultDecoder) (k from : Context A M Framing)
      (msg : ThriftMessage U V) (isn sent rest : Bytes) : Type 0 where
    pub known : Context A M Framing
    pub read :
        default_decode ext pilota pilota_async (record d { reader = sent ++ rest }) from
        ≡ Outer.Result.ok
            (some msg, (record d { reader = rest }, noted ext pilota pilota_async kind msg known))
    pub has_header : known.has_ttheader ≡ true
    pub idl_service_name : known.cx.idl_service_name ≡ some isn
    pub caller : known.cx.caller.service_name ≡ k.cx.caller.service_name
    pub callee : known.cx.callee.service_name ≡ k.cx.callee.service_name

  -- The bytes of a call, and how the server reads them.
  pub record IsCall (kind : Protocol) (d : DefaultDecoder) (k from : Context A M Framing)
      (msg : ThriftMessage U V) (isn : Bytes) (before after : W) : Type 0 where
    pub sent : Bytes
    pub on_wire : out.write_all before sent ≡ some after
    pub reads : (rest : Bytes) → IsRead kind d k from msg isn sent rest

  read_some :
      (kind : Protocol) (d : DefaultDecoder) (from to : Context A M Framing)
      (msg : ThriftMessage U V) (bytes rest : Bytes)
      → decode_async ext (framed ext pilota pilota_async) d.decoder from bytes
        ≡ Outer.Result.ok (some msg, (d.decoder, (to, rest)))
      → decode_from ext pilota pilota_async d from bytes
        ≡ Outer.Result.ok (some msg, (record d { reader = rest }, to))
  unfolding decode_from with_reader decode_async Outer.decode_async_detected Outer.is_ttheader
      Outer.with_decoder framed Framed.decode_async Framed.decode_async_detected Framed.is_framed
      Framed.with_decoder Thrift.thrift_codec Thrift.decode_async DefaultCodec.lift_read
  read_some kind d from to msg [] rest h = absurd cc
  read_some kind d from to msg (byte ∷ bytes) rest h = ap (with_reader ext pilota pilota_async) h

  bytes-sent :
      (encoder : TtHeaderEncoder (FramedEncoder ThriftCodec)) (writer : W)
      (k sized : Context A M Framing) (after : DefaultEncoder W) (bytes : Bytes) (o : Option W)
      → out.write_all writer bytes ≡ o
      → write_bytes ext pilota pilota_async out encoder writer k o ≡ written (after, sized)
      → out.write_all writer bytes ≡ some after.writer
  unfolding write_bytes
  bytes-sent encoder writer k sized after bytes none e h = absurd cc
  bytes-sent encoder writer k sized after bytes (some w) e h =
      let same : record { encoder = encoder; writer = w } ≡ after = cc in
      e ∙ ap (λ (c : DefaultEncoder W). some c.writer) same

  IsRequest-IsRead :
      (kind : Protocol) (d : DefaultDecoder) (k from : Context A M Framing)
      (msg : ThriftMessage U V) (isn sent rest : Bytes) (real : ℕ)
      → IsRequest ext
          (framed ext pilota pilota_async)
          (noted ext pilota pilota_async kind msg)
          d.decoder
          k
          from
          msg
          isn
          real
          sent
          rest
      → IsRead kind d k from msg isn sent rest
  unfolding default_decode
  IsRequest-IsRead kind d k from msg isn sent rest real q = record {
    known = q.known;
    read =
        read_some kind (record d { reader = sent ++ rest }) from
          (noted ext pilota pilota_async kind msg q.known) msg (sent ++ rest) rest q.read;
    has_header = q.has_header;
    idl_service_name = q.idl_service_name;
    caller = q.caller;
    callee = q.callee;
  }

  encoded-IsCall :
      (kind : Protocol) (d : DefaultDecoder) (k sized from : Context A M Framing)
      (msg : ThriftMessage U V) (isn : Bytes) (real : ℕ) (writer : W) (after : DefaultEncoder W)
      (k' : Context A M Framing)
      (r : Outer.Result
        (Framed.Failure (ThriftError Y))
        (TtHeaderEncoder (FramedEncoder ThriftCodec) × Bytes))
      → ((c : TtHeaderEncoder (FramedEncoder ThriftCodec)) (sent rest : Bytes)
          → r ≡ Outer.Result.ok (c, sent)
          → IsRequest ext
              (framed ext pilota pilota_async)
              (noted ext pilota pilota_async kind msg)
              d.decoder
              k
              from
              msg
              isn
              real
              sent
              rest)
      → write_encoded ext pilota pilota_async out writer sized r ≡ written (after, k')
      → IsCall kind d k from msg isn writer after.writer
  unfolding write_encoded
  encoded-IsCall kind d k sized from msg isn real writer after k' (Outer.Result.failed e) law h =
      absurd cc
  encoded-IsCall kind d k sized from msg isn real writer after k' (Outer.Result.ok (c, sent)) law
        h =
      record {
        sent = sent;
        on_wire = bytes-sent c writer sized k' after sent _ refl h;
        reads =
            λ rest. IsRequest-IsRead kind d k from msg isn sent rest real (law c sent rest refl);
      }

  sized-IsCall :
      (kind : Protocol) (d : DefaultDecoder) (k from k' : Context A M Framing)
      (msg : ThriftMessage U V) (isn : Bytes) (writer : W) (after : DefaultEncoder W)
      (r : Outer.Result
        (Framed.Failure (ThriftError Y))
        (TtHeaderEncoder (FramedEncoder ThriftCodec) × (Context A M Framing × (ℕ × ℕ))))
      → ((made c : TtHeaderEncoder (FramedEncoder ThriftCodec)) (sized : Context A M Framing)
            (real malloc : ℕ) (sent rest : Bytes)
          → r ≡ Outer.Result.ok (made, (sized, (real, malloc)))
          → encode ext (framed ext pilota pilota_async) made sized [] msg
            ≡ Outer.Result.ok (c, sent)
          → IsRequest ext
              (framed ext pilota pilota_async)
              (noted ext pilota pilota_async kind msg)
              d.decoder
              k
              from
              msg
              isn
              real
              sent
              rest)
      → encode_sized ext pilota pilota_async out writer msg r ≡ written (after, k')
      → IsCall kind d k from msg isn writer after.writer
  unfolding encode_sized
  sized-IsCall kind d k from k' msg isn writer after (Outer.Result.failed e) law h = absurd cc
  sized-IsCall kind d k from k' msg isn writer after
        (Outer.Result.ok (made, (sized, (real, malloc)))) law h =
      encoded-IsCall kind d k sized from msg isn real writer after k' _
        (λ c sent rest taken. law made c sized real malloc sent rest refl taken) h

  -- A client with an IDL service name whose header's strings have lengths that fit 16 bits sends
  -- a message of fewer than 2 ^ 32 bytes, an exception exactly if its type says so, in the protocol
  -- that its codec chooses, which pilota writes and reads as documented. If the default encoder
  -- succeeds, then it has written bytes from which the server's default decoder, with the same limit
  -- on frames, reads the message, whatever comes behind them. It is left exactly behind them, and
  -- knows from the header the IDL service name, the caller and the callee.
  pub default_decode-default_encode :
      (kind : Protocol) (c after : DefaultEncoder W) (d : DefaultDecoder)
      (k k' from : Context A M Framing) (msg : ThriftMessage U V) (isn : Bytes)
      → IsProtocol kind (pilota kind)
      → k.cx.role ≡ client
      → from.cx.role ≡ server
      → k.cx.idl_service_name ≡ some isn
      → Fits ext k.cx k.meta
      → protocol_of c.encoder.inner.inner (frame_cx k) ≡ kind
      → IsConsistent msg.payload msg.meta.msg_type
      → message_size (pilota kind) msg < 2 ^ 32
      → d.decoder.inner.max_frame_size ≡ c.encoder.inner.max_frame_size
      → default_encode ext pilota pilota_async out c k msg ≡ written (after, k')
      → IsCall kind d k from msg isn c.writer after.writer
  unfolding default_encode
  default_decode-default_encode kind c after d k k' from msg isn law asks serves named fits chosen
        consistent small same h =
      sized-IsCall kind d k from k' msg isn c.writer after _
        (λ made e sized real malloc sent rest sizes taken.
          decode_async-encode ext (framed ext pilota pilota_async)
            (noted ext pilota pilota_async kind msg) c.encoder made e d.decoder k sized from msg isn
            sent rest real malloc asks serves named fits
            (λ inner n m size_taken.
              framed-Writes ext pilota pilota_async kind c.encoder.inner inner d.decoder.inner k msg
                n m law asks chosen consistent small same size_taken)
            sizes taken)
        h
