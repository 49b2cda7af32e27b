-- ===== src/ConnList/Mature.antt =====
-- ConnListPush of src/connio.c on a full list: what it returns and what it leaves behind.
use connio.Prelude.{
  int_sign, int_ltb, ℕ, suc, subst, ◌∙◌, true, false, ◌<◌, ◌≡◌, ◌≢◌, refl, sym, none, some, List,
  [], ◌∷◌, ◌++◌, arith, length, length-append, NotIn,
}
use connio.Dll.{Links}
use connio.Dll.{remove}
use connio.ConnList.{
  ConnList, conn_list_append, conn_list_remove, conn_list_remove_mature, conn_list_push,
}
use connio.ConnList.Contents.{IsConnList, conn_list_append-IsConnList, int_ltb-not, int_ltb-holds}

remove_mature-below :
    (l : ConnList) (links : Links)
    → int_ltb l.limit l.count ≡ false
    → conn_list_remove_mature l links ≡ (none, (l, links))
unfolding conn_list_remove_mature
remove_mature-below l links e = rw e

-- What the head's successor looks like after the head has matured.
remove_mature-over :
    (l : ConnList) (links : Links) (x y : ℕ)
    → int_ltb l.limit l.count ≡ true
    → l.ends.head ≡ some x
    → links.next x ≡ some y
    → links.previous y ≡ some x
    → x ≢ y
    → let (mature, (d, m)) = conn_list_remove_mature l links in
      (mature ≡ some x) × (d.ends.head ≡ some y) × (d.count ≡ l.count) × (m.previous y ≡ some x)
unfolding conn_list_remove_mature
remove_mature-over l links x y over e1 e2 e3 d =
    rw over (ground arith, ground arith, ground arith, ground arith)

remove-keeps-head :
    (l : ConnList) (links : Links) (x y : ℕ)
    → l.ends.head ≡ some y
    → links.previous y ≡ some x
    → (conn_list_remove l links y).0.ends.head ≡ some y
unfolding conn_list_remove remove
remove-keeps-head l links x y e1 e2 = ground arith

-- Below the limit, pushing is appending and no connection matures.
pub conn_list_push-below :
    (l : ConnList) (links : Links) (ps : List ℕ) (p : ℕ)
    → IsConnList l links ps
    → NotIn p ps
    → length ps < l.limit
    → l.limit < int_sign
    → let (mature, (d, m)) = conn_list_push l links p in
      (mature ≡ none) × IsConnList d m (ps ++ p ∷ [])
unfolding conn_list_push
conn_list_push-below l links ps p h n below small =
    let k = conn_list_append-IsConnList l links ps p h n (omega arith) in
    let d = (conn_list_append l links p).0 in
    let m = (conn_list_append l links p).1 in
    let e : d.count ≡ suc (length ps) = k.counted ∙ (length-append ps (p ∷ []) ∙ (omega arith)) in
    let stays =
      remove_mature-below d m
        (int_ltb-not d.limit d.count small (omega (arith, e)) (omega (arith, e))) in
    subst (λ r. (r.0 ≡ none) × IsConnList r.1.0 r.1.1 (ps ++ p ∷ [])) (sym stays) (refl, k)

-- On a full list of two connections at least, the oldest one matures and the next one becomes the
-- head. But `count` stays one too high, and the new head still points back to the connection that
-- left: removing the new head then leaves it as the head.
pub conn_list_push-full :
    (l : ConnList) (links : Links) (x y : ℕ) (ps : List ℕ) (p : ℕ)
    → IsConnList l links (x ∷ y ∷ ps)
    → NotIn p (x ∷ y ∷ ps)
    → l.limit ≡ length (x ∷ y ∷ ps)
    → suc l.limit < int_sign
    → let (mature, (d, m)) = conn_list_push l links p in
      (mature ≡ some x)
      × (d.ends.head ≡ some y)
      × (d.count ≡ suc (length (y ∷ ps ++ p ∷ [])))
      × (m.previous y ≡ some x)
      × ((conn_list_remove d m y).0.ends.head ≡ some y)
unfolding conn_list_push
conn_list_push-full l links x y ps p h n full small =
    let k = conn_list_append-IsConnList l links (x ∷ y ∷ ps) p h n (omega arith) in
    let d = (conn_list_append l links p).0 in
    let m = (conn_list_append l links p).1 in
    let e : d.count ≡ suc (suc (suc (length ps))) =
      k.counted ∙ (length-append (x ∷ y ∷ ps) (p ∷ []) ∙ (omega arith)) in
    let (r1, r2, r3, r4) =
      remove_mature-over d m x y
        (int_ltb-holds d.limit d.count (omega (arith, full)) (omega (arith, e, full))
          (omega (arith, e, full)))
        k.holds.head_first k.holds.linked.1 k.holds.linked.2.0 k.holds.distinct.0.0 in
    (r1, r2, r3 ∙ (k.counted ∙ refl), r4, remove-keeps-head _ _ x y r2 r4)
