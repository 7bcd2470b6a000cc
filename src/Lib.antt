-- ===== src/Lib.antt =====
-- Models and proofs for the streaming gateway of this repository.
--
-- A streaming server (wsh264) sends encrypted video and audio packets over a WebSocket. A gateway, a
-- program (gateway/gateway.c) or the firmware of an AmebaPro board
-- (ameba_gateway/example_gateway_ameba.c), decrypts them and relays them to a client
-- (gateway_client/), over TCP or over a vendor USB device.
--
--   Proto    wsh264/src/gateway_proto.c: the init packet and the media header, written and read.
--   Crypto   wsh264/src/crypto_stream.c: the nonce of a packet, and packets encrypted and decrypted.
--            The cipher, in a submodule, is a parameter; Crypto/Cipher.antt says what is asked of it.
--   Media    gateway_video_flags, the same in both gateways.
--   Config   the upstream address that the host sends to the board over USB: the packet as
--            gateway_client/gateway_client.cpp builds it (Config/Packet.antt) and as the board applies
--            it. inet_aton is a parameter.
--   Usb      the board's USB side. Usb/Ring.antt is the transmit ring (gateway_usb_tx_*), which
--            Usb/Queue.antt specifies as a queue; Usb/State.antt the state; Usb/Stream.antt the bulk
--            IN side (kick, completion, reset, pong, init packet); Usb/Host.antt the packets of the
--            host; Usb/Device.antt set-up and tear-down; Usb/Relay.antt media packets sealed for the
--            host; Usb/Events.antt all of these as the events of one state machine.
--   Net      gateway/tcp_transport.c: tcp_transport_read_exact, write_all and peek_status. recv and send
--            are parameters; Net/Connection.antt says what is asked of them.
--   Ws       gateway/ws_upstream_client.c: WebSocket frames sent and received; Ws/Wire.antt has them as
--            RFC 6455 writes them. Ws/Connect.antt opens the connection.
--   Session  gateway/gateway.c: the nonce that the server announces (Session.antt), and the accept loop
--            with the ends of sessions (Session/Accept.antt), the relay loop of a session
--            (Session/Relay.antt), and the session around it (Session/Whole.antt). cJSON and base64 are parameters.
--   Handshake the request and the answer that open the WebSocket, the same in both programs.
--   Upstream the board's connection to the server (gateway_upstream_*): frames, connecting and polling. lwIP's calls
--            are parameters. Upstream/Same.antt reads them as the system's, and the frames as those of Ws.
--   Board    the loop of gateway_ameba_task: the watchdog, the attempts to connect, the heartbeat.
--   Streamer wsh264/app: media sent, with the fragments of large frames (wsh264.cpp; Streamer.antt and
--            Streamer/Fragments.antt), the turns of the video and the audio thread (Streamer/Units.antt,
--            Streamer/Audio.antt), the commands of a message (Streamer/Commands.antt), the bit rate control (bitrate_ctrl.c; Streamer/BitRate.antt) and the
--            character queue (char_queue.cpp; Streamer/Chars.antt).
--   Bridge   wsh264/src/ws_wsfs_compat.c: the server's WebSocket interface on the wsfs library.
--   Playback gateway_client/gateway_client.cpp: the network reader. Playback/Input.antt finds headers and
--            payloads in the stream, Playback/Opened.antt decrypts them, Playback/Fragments.antt puts
--            video frames together, Playback/Queue.antt queues them, Playback/Audio.antt queues and
--            plays sound, Playback/Startup.antt starts the stream over USB. SDL is a parameter.
--   Transport gateway_client/transport.c and transport_libusb.c: the USB device found, opened and closed,
--            and bulk transfers. libusb is a parameter.
--   Cpu      gateway_cpu_update_sample: the load shown in the log.
--   Base     helpers: tests on numbers, lists, machine words, bit operations, byte orders.
--   Tests    concrete runs, and the theorems at concrete inputs.
--
-- Functions have the C names without their gateway_usb_, gateway_upstream_, gateway_proto_,
-- crypto_stream_, tcp_transport_, ws_upstream_, wsfs_bridge_ or gateway_client_transport_ prefix. A null pointer is `none`, an output array the list of the bytes stored, a
-- C string in an array the list of its characters. Integers are natural numbers with the wrap-around
-- written out: 32 bits for size_t and unsigned long on the board, 64 for size_t in wsh264; the relay
-- reads the latter's packet functions on sizes below 2 GiB, where both agree. The answers of the USB
-- stack, malloc and the cipher are arguments of the functions that ask for them; a completion is an
-- event of its own and never runs inside the call that queues or dequeues a request. Critical sections
-- make each ring operation one step; the log, the cache maintenance and the addresses kept for the log
-- are left out. The loops over recv, send and bulk transfers run on fuel, since a signal or a timeout may interrupt a call any
-- number of times, and so do the search for a header and the square root; the theorems on them say how many turns are enough. The other loops go over lists.
--
-- Not modelled: the board's Wi-Fi and AT
-- commands (input and output of the SDK), decoder and window of the client (FFmpeg and
-- SDL), the server's main function, the state bits that its threads share without locks, its encoder and on-screen display, and the copies of other projects'
-- libraries (cJSON, base64, UTF-8, SHA-1, wsServer).
mod Base
mod Tests
pub mod Proto
pub mod Crypto
pub mod Media
pub mod Config
pub mod Handshake
pub mod Net
pub mod Ws
pub mod Session
pub mod Upstream
pub mod Cpu
pub mod Board
pub mod Bridge
pub mod Transport
pub mod Streamer
pub mod Playback
pub mod Usb
