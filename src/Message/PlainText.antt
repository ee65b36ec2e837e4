-- ===== src/Message/PlainText.antt =====
-- source/message/utility.h, `ExtraPlainText(const Event &)`: the text of a command.
use mathlib.Core.Path.{ap₂}
use migang_bot_cpp.Base.{
  ℕ, ◌-◌, ◌%◌, ◌^◌, ◌≤◌, ◌<◌, ◌≡◌, ap, ◌∙◌, sym, true, false, some, ◌++◌, Bytes, arith, length,
  take, drop, length-take, take-append-drop, drop-append, length-append, ltb, ok,
}
use migang_bot_cpp.Json.{JsonLib}
use migang_bot_cpp.Strings.{remove_prefix, remove_suffix}
use migang_bot_cpp.Strings.Replace.{lacks}
use migang_bot_cpp.Message.{unescape, cut_command, extra_plain_text}
use migang_bot_cpp.Message.Unescape.{unescape-lacks}
use migang_bot_cpp.Trie.{command_size}

module _ (lib : JsonLib) where
  open lib use {Json, contains, at, get_string, get_number}

  abbrev pub IsMessage : Json → Bytes → Type 0
  IsMessage event msg = get_string (at event "message") ≡ some msg

  abbrev pub HasCommandSize : Json → ℕ → Type 0
  HasCommandSize event n =
      (contains event "__command_size__" ≡ true)
      × (get_number (at event "__command_size__") ≡ some n)

  extra_plain_text-cut :
      (event : Json) (msg : Bytes) (n : ℕ)
      → IsMessage event msg
      → HasCommandSize event n
      → extra_plain_text lib event ≡ cut_command lib (n % 2 ^ 16) (unescape msg)
  unfolding extra_plain_text
  extra_plain_text-cut event msg n m (has, e) = rw (m, has, e)

  cut_prefix :
      (p u : Bytes) → 0 < length p → length p < 2 ^ 15 → cut_command lib (length p) (p ++ u) ≡ ok u
  unfolding cut_command remove_prefix
  cut_prefix p u pos short =
      let within : ltb (length (p ++ u)) (length p) ≡ false = ground (arith, length-append p u) in
      ground (arith, drop-append p u)

  -- After a prefix command of `size` bytes that holds no ampersand, with a size that fits a positive
  -- short, the plain text is the rest of the message, unescaped.
  pub extra_plain_text-prefix :
      (event : Json) (msg : Bytes) (size : ℕ)
      → IsMessage event msg
      → HasCommandSize event (command_size false size)
      → 0 < size
      → size < 2 ^ 15
      → size ≤ length msg
      → lacks b'&' (take size msg) ≡ true
      → extra_plain_text lib event ≡ ok (unescape (drop size msg))
  unfolding command_size
  extra_plain_text-prefix event msg size m c pos short within plain =
      let p = take size msg in
      let long : length p ≡ size = omega (arith, length-take size msg) in
      let same : size % 2 ^ 16 ≡ length p = omega arith in
      let parts : unescape msg ≡ p ++ unescape (drop size msg) =
        ap unescape (sym (take-append-drop size msg)) ∙ unescape-lacks p (drop size msg) plain in
      extra_plain_text-cut event msg size m c
      ∙ ap₂ (cut_command lib) same parts
      ∙ cut_prefix p (unescape (drop size msg)) (omega arith) (omega arith)

  -- After a suffix command of `size` bytes, with a size that fits a negative short and that the
  -- unescaped message has, the plain text is the unescaped message without its last `size` bytes.
  pub extra_plain_text-suffix :
      (event : Json) (msg : Bytes) (size : ℕ)
      → IsMessage event msg
      → HasCommandSize event (command_size true size)
      → 0 < size
      → size ≤ 2 ^ 15
      → size ≤ length (unescape msg)
      → extra_plain_text lib event ≡ ok (take (length (unescape msg) - size) (unescape msg))
  unfolding command_size cut_command remove_suffix
  extra_plain_text-suffix event msg size m c pos short within =
      let same : (2 ^ 64 - size) % 2 ^ 64 % 2 ^ 16 ≡ 2 ^ 16 - size = omega arith in
      let back : 2 ^ 16 - (2 ^ 16 - size) ≡ size = omega arith in
      extra_plain_text-cut event msg _ m c ∙ rw same (rw back (ground arith))
