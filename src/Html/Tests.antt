-- ===== src/Html/Tests.antt =====
-- source/utility.h, namespace html: the round trip of a concrete text.
use migang_bot_cpp.Base.{◌≡◌, refl, [], codes, ok, arith}
use migang_bot_cpp.Strings.{find_index}
use migang_bot_cpp.Html.{encode, unreliable_decode, decode_from, int_size}
use migang_bot_cpp.Html.RoundTrip.{unreliable_decode-encode}

-- An entity that is not closed makes the whole text empty.
open_entity : unreliable_decode (codes "a&lt b") ≡ ok []
unfolding unreliable_decode decode_from find_index int_size
open_entity = refl

unreliable_decode-encode_example :
    unreliable_decode (encode (codes "<a> & b")) ≡ ok (codes "<a> & b")
unfolding encode
unreliable_decode-encode_example = unreliable_decode-encode (codes "<a> & b") (omega arith)
