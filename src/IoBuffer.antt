-- ===== src/IoBuffer.antt =====
-- The buffers (IOBuffer) that src/process.c and src/connio.c use, which are another library: its calls
-- over an unknown state, and what the code relies on. `contents` is the octets in a buffer, in their
-- order; a buffer may hold them in several pieces, of which IOBGetUsed gives the first.
pub mod Memory
use connio.Prelude.{ℕ, ◌+◌, ◌≤◌, ◌≡◌, Bool, List, [], ◌++◌, length, drop}

-- What IOBSearch finds: whether there is a match, the octets before it (or those that no match can
-- begin in), and the octets of the match.
pub record Found : Type 0 where
  pub matched : Bool
  pub count : ℕ
  pub pattern_len : ℕ

-- The octets that IOBGetUsed and IOBSearch give begin at the first octet of the buffer. mark_used puts
-- octets into the free space that IOBGetFree counts. IOBSearch is called for a pattern or, with NULL,
-- for the end of a line.
pub record IoBuffers : Type 1 where
  pub State : Type 0
  pub contents : State → List ℕ
  pub get_used : State → List ℕ
  pub get_free : State → ℕ
  pub mark_free : State → ℕ → State
  pub mark_used : State → List ℕ → State
  pub defrag : State → Bool × State
  pub increase_free : State → Bool × State
  pub search : State → List ℕ → Found × State
  pub search_crlf : State → Found × State

pub record IsLawful (B : IoBuffers) : Type 0 where
  pub get_used_prefix : (s : B.State) → (rest : List ℕ) × (B.contents s ≡ B.get_used s ++ rest)
  pub get_used_none : (s : B.State) → B.get_used s ≡ [] → B.contents s ≡ []
  pub contents-mark_free :
      (s : B.State) (n : ℕ)
      → n ≤ length (B.get_used s)
      → B.contents (B.mark_free s n) ≡ drop n (B.contents s)
  pub contents-mark_used :
      (s : B.State) (bs : List ℕ)
      → length bs ≤ B.get_free s
      → B.contents (B.mark_used s bs) ≡ B.contents s ++ bs
  pub contents-defrag : (s : B.State) → B.contents (B.defrag s).1 ≡ B.contents s
  pub contents-increase_free : (s : B.State) → B.contents (B.increase_free s).1 ≡ B.contents s
  pub search-within :
      (s : B.State) (pattern : List ℕ)
      → let (f, t) = B.search s pattern in f.count + f.pattern_len ≤ length (B.get_used t)
  pub search_crlf-within :
      (s : B.State)
      → let (f, t) = B.search_crlf s in f.count + f.pattern_len ≤ length (B.get_used t)
