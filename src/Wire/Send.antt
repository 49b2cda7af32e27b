-- ===== src/Wire/Send.antt =====
-- What a send of src/sockcommon.c reports of the bytes that the system or the SSL library took.
use connio.Prelude.{
  ℕ, zero, suc, ◌+◌, ◌<◌, ◌≤◌, ◌≡◌, ◌≢◌, refl, ap, ◌∙◌, inl, inr, true, false, none, some, List, [],
  ◌∷◌, ◌++◌, ◌==◌, leb, if◌then◌else◌, arith, length, Bool-cases,
}
use connio.Errno.{eagain}
use connio.Conn.{type_none, type_writable}
use connio.Wire.{
  Transfer, IpAnswer, SslAnswer, SslError, moved, failed, ssl_moved, ssl_failed, clear_send,
  ssl_send, ssl_failure, ssl_error_get, socket_send, give_up,
}

-- The short counts `k + 1`, one answer each, and the bytes that they are in all.
abbrev pub shorts : List ℕ → List IpAnswer
shorts [] = []
shorts (k ∷ ks) = moved (suc k) ∷ shorts ks

abbrev pub ssl_shorts : List ℕ → List SslAnswer
ssl_shorts [] = []
ssl_shorts (k ∷ ks) = ssl_moved (suc k) ∷ ssl_shorts ks

abbrev pub total : List ℕ → ℕ
total [] = 0
total (k ∷ ks) = suc k + total ks

clear_send-step :
    (k : ℕ) (more : List IpAnswer) (bytes w : ℕ)
    → w + suc k < bytes
    → clear_send (moved (suc k) ∷ more) bytes w ≡ clear_send more bytes (w + suc k)
unfolding clear_send
clear_send-step k more bytes w h = ground (arith, h)

clear_send-shorts :
    (ks : List ℕ) (more : List IpAnswer) (bytes w : ℕ)
    → w + total ks < bytes
    → clear_send (shorts ks ++ more) bytes w ≡ clear_send more bytes (w + total ks)
clear_send-shorts [] more bytes w h = ap (λ n. clear_send more bytes n) (omega arith)
clear_send-shorts (k ∷ ks) more bytes w h =
    clear_send-step k (shorts ks ++ more) bytes w (omega (arith, h))
    ∙ clear_send-shorts ks more bytes (w + suc k) (omega (arith, h))
    ∙ ap (λ n. clear_send more bytes n) (omega arith)

clear_send-last :
    (k : ℕ) (more : List IpAnswer) (bytes w : ℕ)
    → w + suc k ≡ bytes
    → clear_send (moved (suc k) ∷ more) bytes w
      ≡ some (record { count = some bytes; blocked_on = type_none; error = 0 })
unfolding clear_send
clear_send-last k more bytes w h = ground (arith, h)

clear_send-failed :
    (e : ℕ) (more : List IpAnswer) (bytes w : ℕ)
    → clear_send (failed e ∷ more) bytes w ≡ some (give_up w e)
unfolding clear_send
clear_send-failed e more bytes w = refl

socket_send-clear :
    (ip : List IpAnswer) (ssl : List SslAnswer) (bytes : ℕ)
    → 0 < bytes
    → socket_send ip ssl false bytes ≡ clear_send ip bytes 0
unfolding socket_send
socket_send-clear ip ssl bytes h = ground (arith, h)

socket_send-ssl :
    (ip : List IpAnswer) (ssl : List SslAnswer) (bytes : ℕ)
    → 0 < bytes
    → socket_send ip ssl true bytes ≡ ssl_send ssl bytes 0
unfolding socket_send
socket_send-ssl ip ssl bytes h = ground (arith, h)

-- After short counts of the system that are fewer bytes than asked, a send without SSL reports all
-- bytes if the next answer completes them, and otherwise, if the next answer is the error `e`, the
-- bytes that were taken together with that error, or SOCKET_ERROR if there are none.
pub socket_send-counts :
    (ks : List ℕ) (k e bytes : ℕ) (more : List IpAnswer) (ssl : List SslAnswer)
    → total ks + suc k ≡ bytes
    → e ≢ 0
    → (socket_send (shorts ks ++ moved (suc k) ∷ more) ssl false bytes
        ≡ some (record { count = some bytes; blocked_on = type_none; error = 0 }))
      × (socket_send (shorts ks ++ failed e ∷ more) ssl false bytes
          ≡ some (record {
            count = if total ks == 0 then none else some (total ks);
            blocked_on = if e == eagain then type_writable else type_none;
            error = e;
          }))
unfolding give_up
socket_send-counts ks k e bytes more ssl h ne = (
  socket_send-clear (shorts ks ++ moved (suc k) ∷ more) ssl bytes (omega (arith, h))
      ∙ clear_send-shorts ks (moved (suc k) ∷ more) bytes 0 (omega (arith, h))
      ∙ clear_send-last k more bytes (0 + total ks) (omega (arith, h)),
  socket_send-clear (shorts ks ++ failed e ∷ more) ssl bytes (omega (arith, h))
      ∙ clear_send-shorts ks (failed e ∷ more) bytes 0 (omega (arith, h))
      ∙ clear_send-failed e more bytes (0 + total ks)
      ∙ ground (arith, ne),
)

ssl_send-step :
    (k : ℕ) (more : List SslAnswer) (bytes w : ℕ)
    → w + suc k < bytes
    → ssl_send (ssl_moved (suc k) ∷ more) bytes w ≡ ssl_send more bytes (w + suc k)
unfolding ssl_send
ssl_send-step k more bytes w h = ground (arith, h)

ssl_send-shorts :
    (ks : List ℕ) (more : List SslAnswer) (bytes w : ℕ)
    → w + total ks < bytes
    → ssl_send (ssl_shorts ks ++ more) bytes w ≡ ssl_send more bytes (w + total ks)
ssl_send-shorts [] more bytes w h = ap (λ n. ssl_send more bytes n) (omega arith)
ssl_send-shorts (k ∷ ks) more bytes w h =
    ssl_send-step k (ssl_shorts ks ++ more) bytes w (omega (arith, h))
    ∙ ssl_send-shorts ks more bytes (w + suc k) (omega (arith, h))
    ∙ ap (λ n. ssl_send more bytes n) (omega arith)

ssl_send-failed :
    (s : SslError) (more : List SslAnswer) (bytes w : ℕ)
    → ssl_send (ssl_failed s ∷ more) bytes w ≡ some (ssl_failure s)
unfolding ssl_send
ssl_send-failed s more bytes w = refl

-- With SSL a send that fails reports SOCKET_ERROR, whatever short counts the library answered before,
-- in the same way as a send of which no byte was taken.
pub socket_send-forgets :
    (ks : List ℕ) (s : SslError) (bytes : ℕ) (ip : List IpAnswer) (more : List SslAnswer)
    → total ks < bytes
    → (socket_send ip (ssl_shorts ks ++ ssl_failed s ∷ more) true bytes ≡ some (ssl_failure s))
      × (socket_send ip (ssl_failed s ∷ more) true bytes ≡ some (ssl_failure s))
      × ((ssl_failure s).count ≡ none)
unfolding ssl_failure ssl_error_get
socket_send-forgets ks s bytes ip more h = (
  socket_send-ssl ip (ssl_shorts ks ++ ssl_failed s ∷ more) bytes (omega (arith, h))
      ∙ ssl_send-shorts ks (ssl_failed s ∷ more) bytes 0 (omega (arith, h))
      ∙ ssl_send-failed s more bytes (0 + total ks),
  socket_send-ssl ip (ssl_failed s ∷ more) bytes (omega (arith, h))
      ∙ ssl_send-failed s more bytes 0,
  refl,
)

-- Every answer moves a byte at least or ends the loop: as many answers as bytes are enough.
clear_send-ends :
    (more : List IpAnswer) (bytes w : ℕ)
    → w < bytes
    → bytes ≤ w + length more
    → (t : Transfer) × (clear_send more bytes w ≡ some t)
unfolding clear_send
clear_send-ends [] bytes w h le = absurd (omega (arith, h, le))
clear_send-ends (failed e ∷ more) bytes w h le = (give_up w e, refl)
clear_send-ends (moved zero ∷ more) bytes w h le = (give_up w 0, refl)
clear_send-ends (moved (suc k) ∷ more) bytes w h le = elim (Bool-cases (leb bytes (w + suc k))) [
  | inl e ↦ (record { count = some (w + suc k); blocked_on = type_none; error = 0 }, rw e refl)
  | inr e ↦
      let (t, q) = clear_send-ends more bytes (w + suc k) (ground (arith, e)) (omega (arith, le)) in
      (t, rw e q)
]

-- A send of some bytes without SSL ends after at most as many answers of the system as there are
-- bytes to send.
pub socket_send-ends :
    (ip : List IpAnswer) (ssl : List SslAnswer) (bytes : ℕ)
    → 0 < bytes
    → bytes ≤ length ip
    → (t : Transfer) × (socket_send ip ssl false bytes ≡ some t)
socket_send-ends ip ssl bytes h le =
    let (t, e) = clear_send-ends ip bytes 0 h (omega (arith, le)) in
    (t, socket_send-clear ip ssl bytes h ∙ e)
