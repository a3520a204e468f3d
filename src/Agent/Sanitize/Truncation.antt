-- ===== src/Agent/Sanitize/Truncation.antt =====
-- src/agent/sanitize.rs: what truncation keeps and what it says.
use zier_alpha.Prelude.{
  ℕ, ◌-◌, ◌≤◌, ◌<◌, ◌≡◌, ◌≢◌, ap, Text, ◌++◌, true, false, ◌||◌, arith, length, byte_len, take,
  drop, take-append-drop, sum_of-append, len_utf8, take_of_length-le, nat_eq, leb, if◌then◌else◌,
}
use zier_alpha.Agent.Sanitize.{truncate_with_notice, notice}

-- A text that fits in `max_chars` bytes, or a limit of zero, leaves the text as it is. Any other
-- text is cut after `max_chars` characters, and the number in the notice is the number of bytes
-- that were cut off.
pub truncate_with_notice_lem :
    (content : Text) (max_chars : ℕ)
    → truncate_with_notice content max_chars ≡ (
        if nat_eq max_chars 0 || leb (byte_len content) max_chars
        then (content, false)
        else (take max_chars content ++ notice (byte_len (drop max_chars content)), true))
unfolding truncate_with_notice
truncate_with_notice_lem content max_chars =
    let kept = take max_chars content in
    let cut = drop max_chars content in
    let whole = take-append-drop max_chars content in
    let size : byte_len content - byte_len kept ≡ byte_len cut =
      omega (arith, ap byte_len whole, sum_of-append len_utf8 kept cut) in
    rw size

-- A text of at most `max_chars` characters and more bytes is reported as truncated although nothing
-- is cut: the notice counts zero.
pub truncate-nothing :
    (content : Text) (max_chars : ℕ)
    → max_chars ≢ 0
    → length content ≤ max_chars
    → max_chars < byte_len content
    → truncate_with_notice content max_chars ≡ (content ++ notice 0, true)
unfolding truncate_with_notice
truncate-nothing content max_chars some_limit chars bytes =
    let all = take_of_length-le max_chars content chars in
    let rest : byte_len content - byte_len content ≡ 0 = omega arith in
    rw (all, rest) (ground arith)
