-- ===== src/TcpReceiver/Tests.antt =====
-- tcp_receiver.cc run on small segments, and the theorems at concrete inputs. The peer's stream has
-- the byte `i + 1` at each index `i`, and six bytes; its initial sequence number is 100.
use sponge.Prelude.{
  ℕ, ◌+◌, ◌≡◌, ◌<◌, refl, true, false, Bool, [], ◌∷◌, Bytes, some, arith, inl, inr,
}
use sponge.WrappingInt32.{WrappingInt32, wrap}
use sponge.WrappingInt32
use sponge.ByteStream
use sponge.StreamReassembler
use sponge.StreamReassembler.Substrings
use sponge.StreamReassembler.{push_substring}
use sponge.StreamReassembler.Held.{Held}
use sponge.StreamReassembler.Receive.{Consistent}
use sponge.StreamReassembler.Reader.{new-Inv}
use sponge.TcpHeader
use sponge.TcpSegment.{TcpSegment}
use sponge.TcpReceiver.{
  TcpReceiver, new, first_received, next_received, segment_received, window_size,
}
use sponge.TcpReceiver.Acks.{
  IsSynchronized, IsWaiting, Expected, segment_received-IsSynchronized, segment_received-syn,
}
use sponge.TcpReceiver.SynFin.{segment_received-syn_fin_overacks}

abbrev peer : ℕ → ℕ
peer i = i + 1

abbrev size : ℕ
size = 6

abbrev isn : WrappingInt32
isn = record { raw_value = 100 }

abbrev fresh : TcpReceiver
fresh = new 4

abbrev segment : ℕ → Bool → Bool → Bytes → TcpSegment
segment seqno syn fin payload = record {
  header = record TcpHeader.default { seqno = record { raw_value = seqno }; syn = syn; fin = fin };
  payload = payload;
}

abbrev syn : TcpSegment
syn = segment 100 true false []

abbrev first_bytes : TcpSegment
first_bytes = segment 101 false false (1 ∷ 2 ∷ [])

abbrev all : TcpSegment
all = segment 100 true true (1 ∷ 2 ∷ 3 ∷ 4 ∷ 5 ∷ 6 ∷ [])

fresh-IsWaiting : IsWaiting peer size isn fresh
unfolding new StreamReassembler.new ByteStream.new
fresh-IsWaiting = record {
  inv = new-Inv peer size 4 (omega arith) (omega arith);
  isn_unknown = refl;
  not_acked = refl;
  cap = refl;
  start = refl;
  unread = refl;
  open_end = refl;
}

syn-Consistent : Consistent peer size fresh.reassembler [] 0 false
unfolding new StreamReassembler.new ByteStream.new
syn-Consistent = record {
  exact = refl;
  in_stream = omega arith;
  last = inl refl;
  in_window = omega arith;
}

all-Consistent : Consistent peer size fresh.reassembler (1 ∷ 2 ∷ 3 ∷ 4 ∷ 5 ∷ 6 ∷ []) 0 true
unfolding new StreamReassembler.new ByteStream.new
all-Consistent = record {
  exact = refl;
  in_stream = omega arith;
  last = inr refl;
  in_window = omega arith;
}

-- The SYN, then two bytes: the window moves with what waits for its reader.
receives_run :
    let r = segment_received (segment_received fresh syn) first_bytes in
    (r.ackno ≡ some (record { raw_value = 103 })) × (window_size r ≡ 2)
unfolding segment_received first_received next_received new window_size push_substring
    StreamReassembler.accept StreamReassembler.note_eof StreamReassembler.truncation_data
    StreamReassembler.push_onestr StreamReassembler.emit StreamReassembler.check_end
    StreamReassembler.keep StreamReassembler.read_out StreamReassembler.scan Substrings.insert
    StreamReassembler.reach_end StreamReassembler.new ByteStream.new ByteStream.write
    WrappingInt32.wrap WrappingInt32.unwrap WrappingInt32.init_absseqno WrappingInt32.pick
receives_run = (refl, refl)

after_syn_first : (segment_received fresh syn).reassembler.first_unassembled ≡ 0
unfolding segment_received first_received new push_substring StreamReassembler.accept
    StreamReassembler.note_eof StreamReassembler.truncation_data StreamReassembler.push_onestr
    StreamReassembler.emit StreamReassembler.check_end StreamReassembler.keep
    StreamReassembler.read_out StreamReassembler.scan StreamReassembler.new ByteStream.new
after_syn_first = refl

first_bytes-Expected : Expected peer size isn (segment_received fresh syn) first_bytes 1
unfolding WrappingInt32.wrap
first_bytes-Expected = record {
  numbered = refl;
  after_syn = omega arith;
  small = omega arith;
  near = ground (arith, after_syn_first);
  seen = inl (omega (arith, after_syn_first));
  part = record { exact = refl; in_stream = omega arith; last = inl refl; in_window = omega arith };
}

segment_received-IsSynchronized_example :
    let r = segment_received fresh syn in
    let t = segment_received r first_bytes in
    IsSynchronized peer size isn t
    × (t.reassembler ≡ push_substring r.reassembler (1 ∷ 2 ∷ []) 0 false)
    × ¬ Held t.reassembler t.reassembler.first_unassembled
segment_received-IsSynchronized_example =
    segment_received-IsSynchronized peer size isn first_bytes 1 (omega arith)
      (segment_received-syn peer size isn syn fresh-IsWaiting refl refl syn-Consistent (inl refl))
      first_bytes-Expected

segment_received-syn_fin_overacks_example :
    let t = segment_received fresh all in
    (t.ackno ≡ some (wrap (t.reassembler.first_unassembled + 2) isn))
    × (t.reassembler.first_unassembled < 6)
segment_received-syn_fin_overacks_example =
    segment_received-syn_fin_overacks all fresh-IsWaiting refl refl refl all-Consistent
      (unfold new in omega arith)
