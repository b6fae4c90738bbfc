-- ===== src/EthernetFrame.antt =====
-- libsponge/tcp_helpers/ethernet_frame.hh and ethernet_frame.cc: an Ethernet frame.
use sponge.Prelude.{◌++◌, Bytes}
use sponge.NetParser.{ParseResult, of_buffer}
use sponge.EthernetHeader
use sponge.EthernetHeader.{EthernetHeader}

pub record EthernetFrame : Type 0 where
  pub header : EthernetHeader
  pub payload : Bytes

-- `EthernetFrame::parse`, of a frame that holds `f` before.
unfoldable pub parse : EthernetFrame → Bytes → EthernetFrame × ParseResult
parse f buffer =
    let (p, header, result) = EthernetHeader.parse f.header (of_buffer buffer) in
    (record { header = header; payload = p.buffer }, p.get_error)

-- `EthernetFrame::serialize`, with the buffers of its result joined.
unfoldable pub serialize : EthernetFrame → Bytes
serialize f = EthernetHeader.serialize f.header ++ f.payload
