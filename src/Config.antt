-- ===== src/Config.antt =====
-- ameba_gateway/example_gateway_ameba.c: the upstream address that the host sends over USB. A C string
-- in a fixed array is the list of its characters, without the terminator. `inet_aton` belongs to lwIP
-- and is a parameter: whether it accepts the text.
pub mod Packet
pub mod Apply
use carplay_poc.Base.{
  ℕ, suc, ◌+◌, Bool, true, false, ◌||◌, not, Option, none, some, List, [], ◌∷◌, ◌==◌, leb,
  if◌then◌else◌, length, take, drop, byte_at, bit_or, ◌<<<◌, read_le32, Status, ok, failed,
}

abbrev pub host_max : ℕ
host_max = 16

abbrev pub path_max : ℕ
path_max = 36

-- `gateway_usb_upstream_config_packet_t`, without its magic and its reserved field
pub record ConfigPacket : Type 0 where
  pub seq_no : ℕ
  pub port : ℕ
  pub host : List ℕ
  pub path : List ℕ

-- the packet that 64 received bytes are cast to; the target is little-endian
unfoldable pub config_packet_at : List ℕ → ConfigPacket
unfolding read_le32
config_packet_at raw = record {
  seq_no = read_le32 raw 4;
  port = bit_or (byte_at raw 8) (byte_at raw 9 <<< 8);
  host = take host_max (drop 12 raw);
  path = take path_max (drop 28 raw);
}

-- `gateway_upstream_config_t`
pub record UpstreamConfig : Type 0 where
  pub host : List ℕ
  pub path : List ℕ
  pub port : ℕ
  pub valid : Bool
  pub seq_no : ℕ

-- `gateway_upstream_config` and the globals set with it
pub record ConfigState : Type 0 where
  pub config : UpstreamConfig
  pub config_valid : Bool
  pub config_seq : ℕ
  pub reconnect_requested : Bool

-- `while (len < src_size && src[len] != '\0') ++len;`
unfoldable pub text_len : List ℕ → ℕ
text_len [] = 0
text_len (c ∷ src) = let rest = suc (text_len src) in if c == 0 then 0 else rest

-- `gateway_upstream_copy_field` on non-null pointers: the string left in `dst`; `none` is -1.
unfoldable pub copy_field : ℕ → List ℕ → Option (List ℕ)
copy_field dst_size src =
    let len = text_len src in
    if dst_size == 0 || length src == 0
    then none
    else if len == 0 || leb (length src) len || leb dst_size len
    then none
    else some (take len src)

module _ (inet_aton : List ℕ → Bool) where
  -- `gateway_upstream_apply_usb_config`; a null packet is `none`
  unfoldable pub apply_usb_config : Option ConfigPacket → ConfigState → Status × ConfigState
  apply_usb_config none s = (failed, s)
  apply_usb_config (some p) s =
      if p.port == 0 then (failed, s) else elim (copy_field host_max p.host) [
        | none ↦ (failed, s)
        | some host ↦ elim (copy_field path_max p.path) [
          | none ↦ (failed, s)
          | some path ↦ if not (inet_aton host) then (failed, s) else (
            ok,
            record {
              config = record {
                host = host;
                path = path;
                port = p.port;
                valid = true;
                seq_no = p.seq_no;
              };
              config_valid = true;
              config_seq = p.seq_no;
              reconnect_requested = true;
            },
          )
        ]
      ]

-- `gateway_upstream_config_snapshot` into a non-null `config`: its result, and the copy
unfoldable pub config_snapshot : ConfigState → Bool × UpstreamConfig
config_snapshot s = (s.config.valid, s.config)
