-- ===== src/ArpMessage/Tests.antt =====
-- arp_message.cc run on small buffers.
use sponge.Prelude.{◌≡◌, refl, [], ◌∷◌, none}
use sponge.NetParser.{no_error, packet_too_short, unsupported}
use sponge.NetParser
use sponge.ArpMessage.{default, parse, serialize}

-- A message without an opcode is not written, and one that is too short or of another kind is not
-- read.
arp_run :
    (serialize default ≡ none)
    × (parse default (0 ∷ 1 ∷ []) ≡ (default, packet_too_short))
    × ((parse default (
          0 ∷ 1 ∷ 8 ∷ 0 ∷ 6 ∷ 4 ∷ 0 ∷ 3 ∷ 0 ∷ 0 ∷ 0 ∷ 0 ∷ 0 ∷ 0 ∷ 0 ∷ 0 ∷ 0 ∷ 0 ∷ 0 ∷ 0 ∷ 0 ∷ 0 ∷ 0
          ∷ 0 ∷ 0 ∷ 0 ∷ 0 ∷ 0 ∷ [])).1
        ≡ unsupported)
unfolding serialize parse NetParser.parse_int NetParser.parse_loop NetParser.check_size
arp_run = (refl, refl, refl)
