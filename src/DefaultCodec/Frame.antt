-- ===== src/DefaultCodec/Frame.antt =====
-- volo-thrift/src/codec/default/mod.rs: the frame around a message, inside a TTHeader.
use volo.Base.{ℕ, ◌^◌, ◌<◌, ◌≡◌, refl, sym, ◌∙◌, ap, subst, true, [], arith, append-nil}
use volo.TtHeader.{client, Externals}
use volo.TtHeader.Outer
use volo.TtHeader.Outer.{Context}
use volo.TtHeader.Outer.Request.{Writes}
use volo.Framed
use volo.Framed.{FramedEncoder, FramedDecoder, writes_frame, is_client}
use volo.Framed.RoundTrip.{Writes as FrameWrites, IsFrame, decode-encode_framed}
use volo.Thrift.{
  Protocol, ThriftMessage, ThriftError, Pilota, ThriftCodec, message_size, protocol_of,
  thrift_codec, size, size_as, binary, apache_compact, fb_thrift_compact,
}
use volo.Thrift.RoundTrip.{IsProtocol, IsConsistent, seen, thrift_codec-Writes}
use volo.DefaultCodec.{Framing, frame_cx, after_frame, lift, lift_read, framed}

module _ {A M U V Y : Type 0} (ext : Externals A M)
    (pilota pilota_async : Protocol → Pilota U V Y) where
  -- The server's context after the frame and the message.
  unfoldable pub noted : Protocol → ThriftMessage U V → Context A M Framing → Context A M Framing
  noted kind msg k = after_frame k (seen kind msg (record (frame_cx k) { has_framed = true }))

  writes_frame-client :
      (k : Context A M Framing) → k.cx.role ≡ client → writes_frame (frame_cx k) ≡ true
  unfolding writes_frame frame_cx is_client
  writes_frame-client k h = rw (h) refl

  frame-Writes :
      (kind : Protocol) (c : FramedEncoder ThriftCodec) (d : FramedDecoder ThriftCodec)
      (k : Context A M Framing) (msg : ThriftMessage U V) (n : ℕ)
      → IsFrame (thrift_codec pilota pilota_async) (seen kind msg) c (frame_cx k) msg n
      → d.max_frame_size ≡ c.max_frame_size
      → Writes ext (framed ext pilota pilota_async) (noted kind msg) c d k msg n
  unfolding framed lift lift_read noted
  frame-Writes kind c d k msg n f same = record {
    bytes = f.frame;
    after = f.after;
    length_same = f.length_same;
    appends = λ dst. ap lift (f.written dst);
    reads = λ from.
        ap
          (λ b.
            lift_read from (Framed.decode (thrift_codec pilota pilota_async) d (frame_cx from) b))
          (sym (append-nil f.frame))
        ∙ ap (lift_read from) (f.read d (frame_cx from) [] same);
  }

  thrift-size :
      (kind : Protocol) (c inner : ThriftCodec) (msg : ThriftMessage U V) (n m : ℕ)
      → size_as pilota c msg kind ≡ Framed.Result.ok (inner, (n, m))
      → (c ≡ inner) × (message_size (pilota kind) msg ≡ n)
  unfolding size_as
  thrift-size binary c inner msg n m h = (cc, cc)
  thrift-size apache_compact c inner msg n m h = (cc, cc)
  thrift-size fb_thrift_compact c inner msg n m h = absurd cc

  lifted-Writes :
      (kind : Protocol) (c inner : FramedEncoder ThriftCodec) (d : FramedDecoder ThriftCodec)
      (k : Context A M Framing) (msg : ThriftMessage U V) (n m : ℕ)
      (r : Framed.Result (ThriftError Y) (FramedEncoder ThriftCodec × (ℕ × ℕ)))
      → ((after : FramedEncoder ThriftCodec) (real malloc : ℕ)
          → r ≡ Framed.Result.ok (after, (real, malloc))
          → IsFrame (thrift_codec pilota pilota_async) (seen kind msg) after (frame_cx k) msg real
            × (after.max_frame_size ≡ c.max_frame_size))
      → d.max_frame_size ≡ c.max_frame_size
      → lift r ≡ Outer.Result.ok (inner, (n, m))
      → Writes ext (framed ext pilota pilota_async) (noted kind msg) inner d k msg n
  unfolding lift
  lifted-Writes kind c inner d k msg n m (Framed.Result.failed e) law same h = absurd cc
  lifted-Writes kind c inner d k msg n m (Framed.Result.ok (after, (real, malloc))) law same h =
      let (f, kept) = law after real malloc refl in
      let inner_same : after ≡ inner = cc in
      let n_same : real ≡ n = cc in
      subst (λ a. Writes ext (framed ext pilota pilota_async) (noted kind msg) a d k msg n)
        inner_same
        (subst (Writes ext (framed ext pilota pilota_async) (noted kind msg) after d k msg) n_same
          (frame-Writes kind after d k msg real f (same ∙ sym kept)))

  -- The frame keeps the law that the header asks of the codec inside.
  pub framed-Writes :
      (kind : Protocol) (c inner : FramedEncoder ThriftCodec) (d : FramedDecoder ThriftCodec)
      (k : Context A M Framing) (msg : ThriftMessage U V) (n m : ℕ)
      → IsProtocol kind (pilota kind)
      → k.cx.role ≡ client
      → protocol_of c.inner (frame_cx k) ≡ kind
      → IsConsistent msg.payload msg.meta.msg_type
      → message_size (pilota kind) msg < 2 ^ 32
      → d.max_frame_size ≡ c.max_frame_size
      → (framed ext pilota pilota_async).size c k msg ≡ Outer.Result.ok (inner, (n, m))
      → Writes ext (framed ext pilota pilota_async) (noted kind msg) inner d k msg n
  unfolding framed thrift_codec size
  framed-Writes kind c inner d k msg n m law asks chosen consistent small same h =
      lifted-Writes kind c inner d k msg n m _
        (λ after real malloc sized.
          decode-encode_framed (thrift_codec pilota pilota_async) (seen kind msg) c after
            (frame_cx k) msg real malloc (writes_frame-client k asks)
            (λ codec j z taken.
              let (codec_same, size_same) =
                thrift-size kind c.inner codec msg j z
                  (sym (ap (size_as pilota c.inner msg) chosen) ∙ taken) in
              let w =
                thrift_codec-Writes pilota pilota_async kind c.inner (frame_cx k) msg law chosen
                  consistent in
              (
                omega (arith, small, size_same),
                subst
                    (λ a.
                      FrameWrites (thrift_codec pilota pilota_async) (seen kind msg) a (frame_cx k)
                        msg j)
                    codec_same
                    (subst
                      (FrameWrites (thrift_codec pilota pilota_async) (seen kind msg) c.inner
                        (frame_cx k) msg)
                      size_same w),
              ))
            sized)
        same h
