-- ===== src/ConnList/Contents.antt =====
-- What the list of connections of src/connio.c holds.
use connio.Prelude.{
  int_sign, int_mod, int_ltb, ℕ, suc, ltb, lt→ltb, if◌then◌else◌, true, false, ap, subst, sym, ◌∙◌,
  ◌%◌, ◌+◌, ◌<◌, ◌≤◌, ◌≡◌, refl, List, [], ◌∷◌, ◌++◌, arith, length, length-append, NotIn,
}
use connio.Dll.{Links}
use connio.Dll.Chain.{Holds, append-Holds, remove-Holds}
use connio.ConnList.{ConnList, conn_list_append, conn_list_remove}

-- The list holds the connections `ps`, counts them, and never held more than `peak`.
pub record IsConnList (l : ConnList) (links : Links) (ps : List ℕ) : Type 0 where
  pub holds : Holds l.ends links ps
  pub counted : l.count ≡ length ps
  pub peaked : l.count ≤ l.peak
  pub fits : l.peak < int_sign

ltb-shift : (a b s : ℕ) → ltb (a + s) (b + s) ≡ ltb a b
ltb-shift a b s = ground arith

ltb-false : (a b : ℕ) → b ≤ a → ltb a b ≡ false
ltb-false a b h = ground arith

-- Numbers that are not negative compare as such.
int_ltb-small : (a b : ℕ) → a < int_sign → b < int_sign → int_ltb a b ≡ ltb a b
int_ltb-small a b ha hb =
    let ea : (a + int_sign) % int_mod ≡ a + int_sign = omega (arith, ha) in
    let eb : (b + int_sign) % int_mod ≡ b + int_sign = omega (arith, hb) in
    ap (λ x. ltb x ((b + int_sign) % int_mod)) ea
    ∙ ap (λ x. ltb (a + int_sign) x) eb
    ∙ (ltb-shift a b int_sign)

pub int_ltb-not : (a b : ℕ) → a < int_sign → b < int_sign → b ≤ a → int_ltb a b ≡ false
int_ltb-not a b ha hb h = int_ltb-small a b ha hb ∙ ltb-false a b h

pub int_ltb-holds : (a b : ℕ) → a < int_sign → b < int_sign → a < b → int_ltb a b ≡ true
int_ltb-holds a b ha hb h = int_ltb-small a b ha hb ∙ lt→ltb a b h

peak-bounds :
    (p n : ℕ)
    → p < int_sign
    → n < int_sign
    → let q = if int_ltb p n then n else p in (n ≤ q) × (q < int_sign)
peak-bounds p n hp hn =
    subst (λ b. (n ≤ (if b then n else p)) × ((if b then n else p) < int_sign))
      (sym (int_ltb-small p n hp hn)) (ground arith, ground arith)

-- A connection that is not in the list goes to its end, `count` stays the number of connections and
-- `peak` at least that, as long as the signed 32-bit counter does not overflow.
pub conn_list_append-IsConnList :
    (l : ConnList) (links : Links) (ps : List ℕ) (p : ℕ)
    → IsConnList l links ps
    → NotIn p ps
    → suc (length ps) < int_sign
    → let (d, m) = conn_list_append l links p in IsConnList d m (ps ++ p ∷ [])
unfolding conn_list_append
conn_list_append-IsConnList l links ps p h n room =
    let e = length-append ps (p ∷ []) in
    let n1 : (l.count + 1) % int_mod ≡ suc (length ps) = omega (arith, h.counted) in
    let q = peak-bounds l.peak ((l.count + 1) % int_mod) h.fits (omega (arith, n1)) in
    record {
      holds = append-Holds l.ends links ps p h.holds n;
      counted = omega (arith, n1, e);
      peaked = q.0;
      fits = q.1;
    }

-- Wherever in the list a connection stands, removing it leaves the others in their order, and the
-- peak as it was.
pub conn_list_remove-IsConnList :
    (l : ConnList) (links : Links) (xs : List ℕ) (p : ℕ) (ys : List ℕ)
    → IsConnList l links (xs ++ p ∷ ys)
    → let (d, m) = conn_list_remove l links p in IsConnList d m (xs ++ ys) × (d.peak ≡ l.peak)
unfolding conn_list_remove
conn_list_remove-IsConnList l links xs p ys h =
    let e1 = length-append xs (p ∷ ys) in
    let e2 = length-append xs ys in
    (
      record {
        holds = remove-Holds l.ends links xs p ys h.holds;
        counted = omega (arith, h.counted, h.peaked, h.fits, e1, e2);
        peaked = omega (arith, h.counted, h.peaked, h.fits, e1);
        fits = h.fits;
      },
      refl,
    )
