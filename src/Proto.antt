-- ===== src/Proto.antt =====
-- wsh264/src/gateway_proto.c: the stream's 16-byte init packet and 16-byte packet header. The
-- writers fill a caller's array; here they return the bytes that they store into it, all sixteen.
-- A null `info` is `none`; the -1 of the functions is the `none` of the results.
pub mod RoundTrip
use carplay_poc.Base.{
  refl, ◌≡◌, ℕ, ◌+◌, ◌<◌, ◌^◌, Option, none, some, List, [], ◌∷◌, ◌++◌, ◌==◌, if◌then◌else◌,
  byte_at, write_be16, write_be32, read_be16, read_be32,
}

abbrev pub init_magic : ℕ
init_magic = 0x47574931

abbrev pub packet_magic : ℕ
packet_magic = 0x47575031

abbrev pub proto_version : ℕ
proto_version = 1

abbrev pub video_codec_h264_annexb : ℕ
video_codec_h264_annexb = 1

abbrev pub audio_codec_pcm_s16le : ℕ
audio_codec_pcm_s16le = 1

abbrev pub stream_video : ℕ
stream_video = 1

abbrev pub flag_keyframe : ℕ
flag_keyframe = 1

abbrev pub flag_config : ℕ
flag_config = 2

abbrev pub init_size : ℕ
init_size = 16

abbrev pub packet_header_size : ℕ
packet_header_size = 16

-- `gateway_proto_init_info_t`
pub record InitInfo : Type 0 where
  pub version : ℕ
  pub video_codec : ℕ
  pub audio_codec : ℕ
  pub audio_channels : ℕ
  pub audio_sample_rate : ℕ
  pub audio_sample_bits : ℕ

-- `gateway_proto_media_info_t`
pub record MediaInfo : Type 0 where
  pub stream_id : ℕ
  pub flags : ℕ
  pub seq_no : ℕ
  pub payload_len : ℕ

-- The fields lie in the ranges of their C types.
pub record InitInfoFits (i : InitInfo) : Type 0 where
  pub version_fits : i.version < 2 ^ 8
  pub video_fits : i.video_codec < 2 ^ 8
  pub audio_fits : i.audio_codec < 2 ^ 8
  pub channels_fit : i.audio_channels < 2 ^ 8
  pub rate_fits : i.audio_sample_rate < 2 ^ 32
  pub bits_fit : i.audio_sample_bits < 2 ^ 16

pub record MediaInfoFits (m : MediaInfo) : Type 0 where
  pub stream_fits : m.stream_id < 2 ^ 8
  pub flags_fit : m.flags < 2 ^ 8
  pub seq_fits : m.seq_no < 2 ^ 32
  pub len_fits : m.payload_len < 2 ^ 32

-- `gateway_proto_default_init`
unfoldable pub default_init : InitInfo
default_init = record {
  version = proto_version;
  video_codec = video_codec_h264_annexb;
  audio_codec = audio_codec_pcm_s16le;
  audio_channels = 1;
  audio_sample_rate = 16000;
  audio_sample_bits = 16;
}

-- `gateway_proto_write_init`
unfoldable pub write_init : Option InitInfo → Option (List ℕ)
unfolding write_be16 write_be32
write_init none = none
write_init (some i) = some (
    write_be32 init_magic
    ++ (i.version ∷ i.video_codec ∷ i.audio_codec ∷ i.audio_channels ∷ [])
    ++ write_be32 i.audio_sample_rate
    ++ write_be16 i.audio_sample_bits
    ++ write_be16 0)

-- `gateway_proto_read_init`
unfoldable pub read_init : Option (List ℕ) → Option InitInfo
unfolding read_be16 read_be32
read_init none = none
read_init (some p) =
    if read_be32 p 0 == init_magic
    then some (record {
      version = byte_at p 4;
      video_codec = byte_at p 5;
      audio_codec = byte_at p 6;
      audio_channels = byte_at p 7;
      audio_sample_rate = read_be32 p 8;
      audio_sample_bits = read_be16 p 12;
    })
    else none

-- `gateway_proto_write_media_header`
unfoldable pub write_media_header : Option MediaInfo → Option (List ℕ)
unfolding write_be16 write_be32
write_media_header none = none
write_media_header (some m) = some (
    write_be32 packet_magic
    ++ (m.stream_id ∷ m.flags ∷ [])
    ++ write_be16 0
    ++ write_be32 m.seq_no
    ++ write_be32 m.payload_len)

-- `gateway_proto_read_media_header`
unfoldable pub read_media_header : Option (List ℕ) → Option MediaInfo
unfolding read_be32
read_media_header none = none
read_media_header (some p) =
    if read_be32 p 0 == packet_magic
    then some (record {
      stream_id = byte_at p 4;
      flags = byte_at p 5;
      seq_no = read_be32 p 8;
      payload_len = read_be32 p 12;
    })
    else none

-- The init packet that the gateways send.
abbrev pub init_packet : List ℕ
init_packet = b'G' ∷ b'W' ∷ b'I' ∷ b'1' ∷ 1 ∷ 1 ∷ 1 ∷ 1 ∷ 0 ∷ 0 ∷ 0x3E ∷ 0x80 ∷ 0 ∷ 16 ∷ 0 ∷ 0 ∷ []

pub write_init-default_init : write_init (some default_init) ≡ some init_packet
unfolding write_init default_init
write_init-default_init = refl
