-- ===== src/Config/Packet.antt =====
-- gateway_client/gateway_client.cpp, `send_usb_upstream_config`: the packet that the host sends.
use carplay_poc.Base.{
  ℕ, ◌-◌, ◌||◌, Option, none, some, List, [], ◌∷◌, ◌++◌, leb, if◌then◌else◌, length, replicate, u8,
  ◌>>>◌, write_le32,
}
use carplay_poc.Config.{host_max, path_max}

-- The 64 bytes of the packet: zero where nothing is stored.
unfoldable pub packed : ℕ → ℕ → List ℕ → List ℕ → List ℕ
unfolding write_le32
packed seq_no port host path =
    (b'C' ∷ b'F' ∷ b'G' ∷ b'1' ∷ [])
    ++ (write_le32 seq_no
        ++ ((u8 port ∷ u8 (port >>> 8) ∷ 0 ∷ 0 ∷ [])
            ++ ((host ++ replicate (host_max - length host) 0)
                ++ (path ++ replicate (path_max - length path) 0))))

-- What `send_usb_upstream_config` sends; `none` where it finds the texts too long.
unfoldable pub config_bytes : ℕ → ℕ → List ℕ → List ℕ → Option (List ℕ)
unfolding packed
config_bytes seq_no port host path =
    if leb host_max (length host) || leb path_max (length path)
    then none
    else some (packed seq_no port host path)
