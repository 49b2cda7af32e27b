-- ===== src/Reading/Async.antt =====
-- The asynchronous calls of src/connio.c that read into a client's memory: from the pointer `buff`, of
-- which it is known whether it is not NULL, and the lengths to errno and what ConnAReadToCondition gets.
use connio.Prelude.{ℕ, ℤ, Bool, true, List, [], ◌∷◌}
use connio.Conn.{read, read_count, read_until_pattern}
use connio.Process.Read.{special_pattern_crlf}
use connio.Process.Dispatch.{mode_asynchronous}
use connio.Reading.{
  Request, request, no_flags, copy_only, delete_only, copy_delete, get_s_flags, checked, size_of,
}

unfoldable pub conn_a_read_ex : Bool → ℤ → ℕ × Request
unfolding checked size_of
conn_a_read_ex buff n = (checked buff n, request read [] (size_of n) mode_asynchronous copy_delete)

unfoldable pub conn_a_read_count_ex : Bool → ℤ → ℕ × Request
unfolding checked size_of
conn_a_read_count_ex buff n =
    (checked buff n, request read_count [] (size_of n) mode_asynchronous copy_delete)

unfoldable pub conn_a_read_line_ex : Bool → ℤ → ℕ × Request
unfolding checked size_of
conn_a_read_line_ex buff n = (
  checked buff n,
  request read_until_pattern (10 ∷ []) (size_of n) mode_asynchronous
      (record copy_delete { include_pattern = true; terminate = true }),
)

unfoldable pub conn_a_read_crlf_ex : Bool → ℤ → Bool → ℕ × Request
unfolding checked size_of get_s_flags
conn_a_read_crlf_ex buff n include_lf = (
  checked buff n,
  record (request read_until_pattern special_pattern_crlf (size_of n) mode_asynchronous
      (get_s_flags include_lf)) { submits = true },
)

unfoldable pub conn_a_get_s_ex : Bool → ℤ → Bool → ℕ × Request
unfolding checked size_of get_s_flags
conn_a_get_s_ex buff n include_lf = (
  checked buff n,
  record (request read_until_pattern (10 ∷ []) (size_of n) mode_asynchronous
      (get_s_flags include_lf)) { submits = true },
)

unfoldable pub conn_a_read_answer_ex : Bool → ℤ → ℕ × Request
unfolding checked size_of
conn_a_read_answer_ex buff n = (
  checked buff n,
  request read_until_pattern (10 ∷ []) (size_of n) mode_asynchronous
      (record copy_delete { terminate = true }),
)

unfoldable pub conn_a_read_until_pattern_ex : Bool → ℤ → List ℕ → ℕ × Request
unfolding checked size_of
conn_a_read_until_pattern_ex buff n pattern =
    (checked buff n, request read_until_pattern pattern (size_of n) mode_asynchronous copy_delete)

unfoldable pub conn_a_eat_count_ex : ℤ → ℕ × Request
unfolding checked size_of
conn_a_eat_count_ex n =
    (checked true n, request read_count [] (size_of n) mode_asynchronous delete_only)

unfoldable pub conn_a_peek_ex : Bool → ℤ → ℕ × Request
unfolding checked size_of
conn_a_peek_ex buff n = (checked buff n, request read [] (size_of n) mode_asynchronous copy_only)

unfoldable pub conn_a_peek_count_ex : Bool → ℤ → ℕ × Request
unfolding checked size_of
conn_a_peek_count_ex buff n =
    (checked buff n, request read_count [] (size_of n) mode_asynchronous copy_only)

unfoldable pub conn_a_peek_line_ex : Bool → ℤ → ℕ × Request
unfolding checked size_of
conn_a_peek_line_ex buff n = (
  checked buff n,
  request read_until_pattern (10 ∷ []) (size_of n) mode_asynchronous
      (record copy_only { terminate = true }),
)

unfoldable pub conn_a_peek_answer_ex : Bool → ℤ → ℕ × Request
unfolding checked size_of
conn_a_peek_answer_ex buff n = (
  checked buff n,
  request read_until_pattern (10 ∷ []) (size_of n) mode_asynchronous
      (record copy_only { include_pattern = true; terminate = true }),
)

unfoldable pub conn_a_peek_until_pattern_ex : Bool → ℤ → List ℕ → ℕ × Request
unfolding checked size_of
conn_a_peek_until_pattern_ex buff n pattern =
    (checked buff n, request read_until_pattern pattern (size_of n) mode_asynchronous copy_only)

unfoldable pub conn_a_test_read_ex : ℕ × Request
conn_a_test_read_ex = (0, request read [] 0 mode_asynchronous no_flags)

unfoldable pub conn_a_test_read_count_ex : ℤ → ℕ × Request
unfolding checked size_of
conn_a_test_read_count_ex n =
    (checked true n, request read_count [] (size_of n) mode_asynchronous no_flags)

unfoldable pub conn_a_test_read_line_ex : ℕ × Request
conn_a_test_read_line_ex = (0, request read_until_pattern (10 ∷ []) 0 mode_asynchronous no_flags)

unfoldable pub conn_a_test_read_crlf_ex : ℕ × Request
conn_a_test_read_crlf_ex =
    (0, request read_until_pattern special_pattern_crlf 0 mode_asynchronous no_flags)

unfoldable pub conn_a_test_read_until_pattern_ex : List ℕ → ℕ × Request
conn_a_test_read_until_pattern_ex pattern =
    (0, request read_until_pattern pattern 0 mode_asynchronous no_flags)
