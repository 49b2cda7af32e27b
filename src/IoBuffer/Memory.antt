-- ===== src/IoBuffer/Memory.antt =====
-- A buffer in one piece: a list of octets and the size of its free space. A search looks for the first
-- octet of its pattern, 10 for the end of a line.
use connio.Prelude.{
  ℕ, suc, ◌+◌, ◌-◌, ◌≤◌, ◌≡◌, refl, ap, true, false, List, [], ◌∷◌, ◌++◌, ◌==◌, if◌then◌else◌,
  arith, length, drop,
}
use connio.IoBuffer.{IoBuffers, Found, IsLawful}

pub record Piece : Type 0 where
  pub octets : List ℕ
  pub free : ℕ

unfoldable pub find : ℕ → List ℕ → Found
find x [] = record { matched = false; count = 0; pattern_len = 0 }
find x (y ∷ ys) =
    let rest = find x ys in
    if x == y
    then record { matched = true; count = 0; pattern_len = 1 }
    else record rest { count = suc rest.count }

abbrev pub memory : IoBuffers
memory = record {
  State = Piece;
  contents = λ s. s.octets;
  get_used = λ s. s.octets;
  get_free = λ s. s.free;
  mark_free = λ s n. record { octets = drop n s.octets; free = s.free + n };
  mark_used = λ s bs. record { octets = s.octets ++ bs; free = s.free - length bs };
  defrag = λ s. (false, s);
  increase_free = λ s. (false, s);
  search = λ s pattern. elim pattern [
    | [] ↦ (record { matched = false; count = 0; pattern_len = 0 }, s)
    | x ∷ xs ↦ (find x s.octets, s)
  ];
  search_crlf = λ s. (find 10 s.octets, s);
}

find-within : (x : ℕ) (ys : List ℕ) → (find x ys).count + (find x ys).pattern_len ≤ length ys
unfolding find
find-within x [] = omega arith
find-within x (y ∷ ys) = let rest = find-within x ys in ground (arith, rest)

append_nil : (xs : List ℕ) → xs ≡ xs ++ []
append_nil [] = refl
append_nil (x ∷ xs) = ap (λ rest. x ∷ rest) (append_nil xs)

search_within :
    (s : Piece) (pattern : List ℕ)
    → let (f, t) = memory.search s pattern in f.count + f.pattern_len ≤ length (memory.get_used t)
search_within s [] = omega arith
search_within s (x ∷ xs) = find-within x s.octets

pub memory-IsLawful : IsLawful memory
memory-IsLawful = record {
  get_used_prefix = λ s. ([], append_nil s.octets);
  get_used_none = λ s e. e;
  contents-mark_free = λ s n h. refl;
  contents-mark_used = λ s bs h. refl;
  contents-defrag = λ s. refl;
  contents-increase_free = λ s. refl;
  search-within = search_within;
  search_crlf-within = λ s. find-within 10 s.octets;
}
