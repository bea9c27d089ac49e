-- ===== src/TtHeader/Outer/Request.antt =====
-- volo-thrift/src/codec/default/ttheader.rs: a request with its header, from the client's encoder to
-- the server's reader.
use volo.Base.{
  ℕ, ◌+◌, ◌^◌, ◌<◌, ◌≡◌, refl, sym, ◌∙◌, ap, subst, Bool, true, [], ◌++◌, some, arith,
  if◌then◌else◌, length, drop, append_assoc, length-append,
}
use volo.Base.Bytes.{Bytes, of_be32-be32, split_at?, split_at?-append}
use volo.TtHeader.{client, server, Externals}
use volo.TtHeader.Encode.{EncodeResult, encode as encode_header}
use volo.TtHeader.Size.{encode_size}
use volo.TtHeader.SizeAgrees.{encode-encode_size}
use volo.TtHeader.Decode
use volo.TtHeader.Apply.{decode as decode_header}
use volo.TtHeader.Layout.{header, total}
use volo.TtHeader.RoundTrip.{Fits}
use volo.TtHeader.Request.{decode-encode_request}
use volo.TtHeader.Outer.{
  Context, Result, ok, failed, Inner, TtHeaderEncoder, TtHeaderDecoder, is_client, writes_header,
  with_encoder, encode_behind, encode, with_sizes, size, with_decoder, decode_behind, decode_framed,
  behind, decode_exact, decode_async_detected, decode_async,
}
use volo.TtHeader.Outer.Header.{
  encoded_header, header-total, is_ttheader-header, encode_size-client, counts-client,
}

module _ {A M T E D Msg X : Type 0} (ext : Externals A M) (codec : Inner A M T E D Msg X) where
  -- The inner codec appends as many bytes as it has announced, and reads them again, which makes
  -- `seen` of the context.
  client_writes : (k : Context A M T) → k.cx.role ≡ client → writes_header k ≡ true
  unfolding writes_header is_client
  client_writes k h = rw (h) refl

  pub record Writes (seen : Context A M T → Context A M T) (inner : E) (d : D) (k : Context A M T)
      (msg : Msg) (n : ℕ) : Type 0 where
    pub bytes : Bytes
    pub after : E
    pub length_same : length bytes ≡ n
    pub appends : (dst : Bytes) → codec.encode inner k dst msg ≡ ok (after, dst ++ bytes)
    pub reads : (k : Context A M T) → codec.decode d k bytes ≡ ok (some msg, (d, (seen k, [])))

  -- A request on the wire: as long as announced, and read by the server whatever is behind it. The
  -- server knows from its header which service is called, and by whom.
  pub record IsRequest (seen : Context A M T → Context A M T) (d : TtHeaderDecoder D)
      (k from : Context A M T) (msg : Msg) (isn : Bytes) (real : ℕ) (sent rest : Bytes)
      : Type 0 where
    pub length_same : length sent ≡ real
    pub known : Context A M T
    pub read : decode_async ext codec d from (sent ++ rest) ≡ ok (some msg, (d, (seen known, rest)))
    pub has_header : known.has_ttheader ≡ true
    pub idl_service_name : known.cx.idl_service_name ≡ some isn
    pub caller : known.cx.caller.service_name ≡ k.cx.caller.service_name
    pub callee : known.cx.callee.service_name ≡ k.cx.callee.service_name

  -- The reader takes the header's length off, and then so many bytes.
  decode_async-header :
      (d : TtHeaderDecoder D) (k from : Context A M T) (payload rest : Bytes)
      → total ext k.cx k.meta (length payload) < 2 ^ 32
      → decode_async ext codec d from (header ext k.cx k.meta (length payload) ++ (payload ++ rest))
        ≡ behind ext codec rest (
            decode_framed ext codec d from
              (drop 4 (header ext k.cx k.meta (length payload)) ++ payload))
  unfolding decode_async decode_async_detected header decode_exact
  decode_async-header d k from payload rest small =
      let n = length payload in
      let tail = drop 4 (header ext k.cx k.meta n) in
      let split =
        ap (λ i. split_at? i (tail ++ (payload ++ rest)))
          (of_be32-be32 (total ext k.cx k.meta n) small
            ∙ sym (header-total ext k.cx k.meta payload))
        ∙ ap (split_at? (length (tail ++ payload))) (sym (append_assoc tail payload rest))
        ∙ split_at?-append (tail ++ payload) rest in
      ap (decode_async_detected ext codec d from (header ext k.cx k.meta n ++ (payload ++ rest)))
        (is_ttheader-header ext k.cx k.meta n (payload ++ rest))
      ∙ ap (decode_exact ext codec d from) split

  decode_framed-read :
      (seen : Context A M T → Context A M T) (d : TtHeaderDecoder D) (from : Context A M T)
      (msg : Msg) (bytes payload : Bytes)
      → (decode_header ext from.cx from.meta bytes).2 ≡ Decode.Result.ok payload
      → ((k : Context A M T)
          → codec.decode d.inner k payload ≡ ok (some msg, (d.inner, (seen k, []))))
      → let r = decode_header ext from.cx from.meta bytes in
        decode_framed ext codec d from bytes
        ≡ ok (some msg, (d, (seen (record from { cx = r.0; meta = r.1; has_ttheader = true }), [])))
  unfolding decode_framed decode_behind with_decoder
  decode_framed-read seen d from msg bytes payload rest reads =
      let r = decode_header ext from.cx from.meta bytes in
      let known : Context A M T = record from { cx = r.0; meta = r.1; has_ttheader = true } in
      ap (decode_behind ext codec d known) rest ∙ ap (with_decoder ext codec) (reads known)

  write-IsRequest :
      (seen : Context A M T → Context A M T) (d : TtHeaderDecoder D) (k from : Context A M T)
      (msg : Msg) (isn head payload rest : Bytes)
      → k.cx.role ≡ client
      → from.cx.role ≡ server
      → k.cx.idl_service_name ≡ some isn
      → Fits ext k.cx k.meta
      → encode_header ext k.cx k.meta [] (length payload) ≡ EncodeResult.ok head
      → ((k : Context A M T)
          → codec.decode d.inner k payload ≡ ok (some msg, (d.inner, (seen k, []))))
      → IsRequest seen d k from msg isn
          ((encode_size ext k.cx k.meta).0 + length payload)
          (head ++ payload)
          rest
  unfolding behind
  write-IsRequest seen d k from msg isn head payload rest asks serves named fits e reads =
      let n = length payload in
      let (same, small) = encoded_header ext k.cx k.meta n head e in
      let r = decode_header ext from.cx from.meta (drop 4 head ++ payload) in
      let known : Context A M T = record from { cx = r.0; meta = r.1; has_ttheader = true } in
      let got =
        decode-encode_request ext k.cx from.cx k.meta from.meta n head payload isn asks serves named
          fits e in
      let sized =
        encode-encode_size ext k.cx k.meta [] head n (counts-client ext k.cx k.meta k.cx.role asks)
          (ap (λ c. encode_header ext c k.meta [] n) (encode_size-client ext k.cx k.meta asks)
            ∙ e) in
      record {
        length_same = omega (arith, length-append head payload, sized);
        known = known;
        read =
            ap (decode_async ext codec d from) (append_assoc head payload rest)
            ∙ ap (λ h. decode_async ext codec d from (h ++ (payload ++ rest))) same
            ∙ decode_async-header d k from payload rest small
            ∙ ap (λ h. behind ext codec rest (decode_framed ext codec d from (drop 4 h ++ payload)))
                (sym same)
            ∙ ap (behind ext codec rest) (
                decode_framed-read seen d from msg (drop 4 head ++ payload) payload got.rest reads);
        has_header = refl;
        idl_service_name = got.isn_received;
        caller = got.caller_received;
        callee = got.callee_received;
      }

  behind-IsRequest :
      (seen : Context A M T → Context A M T) (c after : TtHeaderEncoder E) (d : TtHeaderDecoder D)
      (k from : Context A M T) (msg : Msg) (isn sent rest : Bytes) (n : ℕ) (o : EncodeResult)
      → k.cx.role ≡ client
      → from.cx.role ≡ server
      → k.cx.idl_service_name ≡ some isn
      → Fits ext k.cx k.meta
      → (w : Writes seen c.inner d.inner k msg n)
      → encode_header ext k.cx k.meta [] (length w.bytes) ≡ o
      → encode_behind ext codec c k msg o ≡ ok (after, sent)
      → IsRequest seen d k from msg isn ((encode_size ext k.cx k.meta).0 + n) sent rest
  unfolding encode_behind with_encoder
  behind-IsRequest seen c after d k from msg isn sent rest n EncodeResult.size_limit asks serves
        named fits w e out =
      absurd cc
  behind-IsRequest seen c after d k from msg isn sent rest n (EncodeResult.ok head) asks serves
        named fits w e out =
      let appended = sym (ap (with_encoder ext codec c) (w.appends head)) ∙ out in
      let bytes_same : head ++ w.bytes ≡ sent = cc in
      let made =
        write-IsRequest seen d k from msg isn head w.bytes rest asks serves named fits e w.reads in
      subst (λ b. IsRequest seen d k from msg isn ((encode_size ext k.cx k.meta).0 + n) b rest)
        bytes_same
        (subst
          (λ j.
            IsRequest seen d k from msg isn ((encode_size ext k.cx k.meta).0 + j) (head ++ w.bytes)
              rest)
          w.length_same made)

  encode-header_first :
      (c : TtHeaderEncoder E) (k : Context A M T) (msg : Msg)
      → writes_header k ≡ true
      → encode ext codec c k [] msg
        ≡ encode_behind ext codec c k msg (encode_header ext k.cx k.meta [] c.inner_size)
  unfolding encode
  encode-header_first c k msg h = rw (h) refl

  sized-IsRequest :
      (seen : Context A M T → Context A M T) (c made after : TtHeaderEncoder E)
      (d : TtHeaderDecoder D) (k sized from : Context A M T) (msg : Msg) (isn sent rest : Bytes)
      (real malloc : ℕ) (r : Result X (E × (ℕ × ℕ)))
      → k.cx.role ≡ client
      → from.cx.role ≡ server
      → k.cx.idl_service_name ≡ some isn
      → Fits ext k.cx k.meta
      → ((inner : E) (n m : ℕ) → r ≡ ok (inner, (n, m)) → Writes seen inner d.inner k msg n)
      → with_sizes ext codec c k r ≡ ok (made, (sized, (real, malloc)))
      → encode ext codec made sized [] msg ≡ ok (after, sent)
      → IsRequest seen d k from msg isn real sent rest
  unfolding with_sizes
  sized-IsRequest seen c made after d k sized from msg isn sent rest real malloc (failed e) asks
        serves named fits law size out =
      absurd cc
  sized-IsRequest seen c made after d k sized from msg isn sent rest real malloc
        (ok (inner, (n, m))) asks serves named fits law sizes out =
      let w = law inner n m refl in
      let writes = client_writes k asks in
      let sent_to : TtHeaderEncoder E = record c { inner = inner; inner_size = n } in
      let header = encode_size ext k.cx k.meta in
      let with_header : Context A M T = record k { cx = header.1 } in
      let pick : Bool → Result X (TtHeaderEncoder E × (Context A M T × (ℕ × ℕ))) = λ b.
        if b
        then ok (sent_to, (with_header, (n + header.0, m + header.0)))
        else ok (sent_to, (k, (n, m))) in
      let taken = sym (ap pick writes) ∙ sizes in
      let made_same : sent_to ≡ made = cc in
      let sized_same : with_header ≡ sized = cc in
      let real_same : n + header.0 ≡ real = cc in
      let kept : with_header ≡ k =
        ap (λ x. record k { cx = x }) (encode_size-client ext k.cx k.meta asks) in
      let out' =
        ap (λ x. encode ext codec sent_to x [] msg) (sym kept ∙ sized_same)
        ∙ ap (λ x. encode ext codec x sized [] msg) made_same
        ∙ out in
      subst (λ x. IsRequest seen d k from msg isn x sent rest) (omega (arith, real_same))
        (behind-IsRequest seen sent_to after d k from msg isn sent rest n _ asks serves named fits w
          refl
          (ap (λ x. encode_behind ext codec sent_to k msg (encode_header ext k.cx k.meta [] x))
              w.length_same
            ∙ sym (encode-header_first sent_to k msg writes)
            ∙ out'))

  -- A client with an IDL service name whose header's strings have lengths that fit 16 bits, around
  -- an inner codec that appends what it has announced and reads it again: if `size` and `encode`
  -- succeed, then as many bytes are written as `size` has said. The server's reader, whatever is
  -- behind them, gives the message, goes on exactly behind it, and knows from the header the
  -- IDL service name, the caller and the callee, and that the request had a header.
  pub decode_async-encode :
      (seen : Context A M T → Context A M T) (c made after : TtHeaderEncoder E)
      (d : TtHeaderDecoder D) (k sized from : Context A M T) (msg : Msg) (isn sent rest : Bytes)
      (real malloc : ℕ)
      → k.cx.role ≡ client
      → from.cx.role ≡ server
      → k.cx.idl_service_name ≡ some isn
      → Fits ext k.cx k.meta
      → ((inner : E) (n m : ℕ)
          → codec.size c.inner k msg ≡ ok (inner, (n, m))
          → Writes seen inner d.inner k msg n)
      → size ext codec c k msg ≡ ok (made, (sized, (real, malloc)))
      → encode ext codec made sized [] msg ≡ ok (after, sent)
      → IsRequest seen d k from msg isn real sent rest
  unfolding size
  decode_async-encode seen c made after d k sized from msg isn sent rest real malloc asks serves
        named fits law sizes out =
      sized-IsRequest seen c made after d k sized from msg isn sent rest real malloc
        (codec.size c.inner k msg) asks serves named fits law sizes out
