-- ===== src/DefaultCodec/Runs.antt =====
-- volo-thrift/src/codec/default/mod.rs: a request of one number, over the default codec.
use volo.Base.{ℕ, ◌≡◌, refl, false, [], none, some, arith}
use volo.Base.Bytes.{codes, overwrite, patch}
use volo.TtHeader.{client, server}
use volo.TtHeader
use volo.TtHeader.Encode
use volo.TtHeader.Size
use volo.TtHeader.Runs.{ext, request, fresh_server, request_fits}
use volo.TtHeader.Outer
use volo.TtHeader.Outer.{Context, TtHeaderEncoder, TtHeaderDecoder}
use volo.Framed
use volo.Framed.{FramedEncoder, FramedDecoder, default_max_frame_size}
use volo.Thrift
use volo.Thrift.{
  Protocol, binary, call, value, ThriftMessage, Pilota, Extensions, ThriftCodec, message_size,
  protocol_of,
}
use volo.Thrift.Runs.{numbers, numbers-IsProtocol}
use volo.DefaultCodec
use volo.DefaultCodec.{
  Framing, frame_cx, Writer, written, DefaultEncoder, DefaultDecoder, default_encode,
}
use volo.DefaultCodec.Call.{IsCall, default_decode-default_encode}

abbrev pilota : Protocol → Pilota ℕ ℕ Unit
pilota kind = numbers

abbrev socket : Writer Unit
socket = record { write_all = λ w bytes. some tt }

abbrev unframed : Framing
unframed = record {
  has_framed = false;
  thrift = record { has_binary = false; has_compact = false; ident = none };
}

abbrev asking : Context ℕ ℕ Framing
asking = record { cx = request; meta = 0; has_ttheader = false; within = unframed }

abbrev asked : Context ℕ ℕ Framing
asked = record { cx = fresh_server; meta = 0; has_ttheader = false; within = unframed }

abbrev thrift : ThriftCodec
thrift = record { protocol = binary }

abbrev encoder_of : ℕ → ℕ → DefaultEncoder Unit
encoder_of message frame = record {
  encoder = record {
    inner = record {
      inner = thrift;
      inner_size = message;
      max_frame_size = default_max_frame_size;
    };
    inner_size = frame;
  };
  writer = tt;
}

abbrev decoder : DefaultDecoder
decoder = record {
  decoder = record { inner = record { inner = thrift; max_frame_size = default_max_frame_size } };
  reader = [];
}

abbrev question : ThriftMessage ℕ ℕ
question = record {
  payload = value 42;
  meta = record { msg_type = call; method = codes "get"; seq_id = 7 };
}

question_written :
    default_encode ext pilota pilota socket (encoder_of 0 0) asking question
    ≡ written (encoder_of 9 13, asking)
unfolding Encode.put_prefixed Encode.put_kv Encode.put_int_kv Encode.put_all Encode.put_metainfo
    Encode.put_idl_service_name Encode.put_conn_reset Encode.put_int_option Encode.put_biz_extra
    Encode.put_section Encode.protocol_of Encode.put_padding Encode.write_lengths
    Encode.fill_lengths Encode.biz_extra_text Encode.put_biz_error Encode.has_string_kv
    Encode.put_string_kvs Encode.put_int_kvs Encode.put_sections Encode.encode Size.add_kv
    Size.add_all Size.add_metainfo Size.add_idl_service_name Size.add_conn_reset Size.add_int_option
    Size.pad_len Size.counts_string_kv Size.fresh_extra Size.add_biz_extra Size.add_biz_error
    Size.add_string_kvs Size.add_int_kvs Size.cache_extra Size.encode_size TtHeader.int_key
    TtHeader.protocol_byte overwrite patch Framed.signed Outer.is_ttheader Outer.is_client
    Outer.writes_header Outer.with_encoder Outer.encode_behind Outer.encode Outer.with_sizes
    Outer.size Framed.check_framed_size Framed.is_framed Framed.is_client Framed.writes_frame
    Framed.behind Framed.with_encoder Framed.encode Framed.size_checked Framed.with_sizes
    Framed.size Thrift.ident_of Thrift.meta_of Thrift.handle_ident Thrift.message_size
    Thrift.encode_message Thrift.to_raised Thrift.to_value Thrift.read_payload Thrift.detect
    Thrift.protocol_of Thrift.insert_protocol Thrift.encode_as Thrift.encode Thrift.size_as
    Thrift.size Thrift.thrift_codec DefaultCodec.frame_cx DefaultCodec.after_frame DefaultCodec.lift
    DefaultCodec.lift_read DefaultCodec.framed DefaultCodec.write_bytes DefaultCodec.write_encoded
    DefaultCodec.encode_sized DefaultCodec.default_encode DefaultCodec.with_reader
question_written = refl

chosen : protocol_of thrift (frame_cx asking) ≡ binary
unfolding protocol_of frame_cx
chosen = refl

question_size : message_size numbers question ≡ 9
unfolding message_size Thrift.ident_of
question_size = refl

default_decode-default_encode_example :
    IsCall ext pilota pilota socket binary decoder asking asked question (codes "Store") tt tt
default_decode-default_encode_example =
    default_decode-default_encode ext pilota pilota socket binary (encoder_of 0 0) (encoder_of 9 13)
      decoder asking asking asked question (codes "Store") numbers-IsProtocol refl refl refl
      request_fits chosen tt (omega (arith, question_size)) refl question_written
