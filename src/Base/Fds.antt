-- ===== src/Base/Fds.antt =====
-- fd_set of select and pselect: the descriptors that are in the set.
use Prim.Native.Nat.{ℕ}
use mathlib.Core.Path.{◌≡◌, refl, sym, ◌∙◌}
use mathlib.Core.Logic.{◌≢◌, ◌⊎◌, inl, inr}
use mathlib.Core.Bool.{Bool, true, false}
use iu7_pvs_cp.Base.Tests.{◌==◌, if◌then◌else◌, ==_self, ==_differs, ==_iff, Bool-cases}

abbrev pub FdSet : Type 0
FdSet = ℕ → Bool

-- FD_SET
abbrev pub fd_set : ℕ → FdSet → FdSet
fd_set socket set fd = if fd == socket then true else set fd

-- FD_CLR
abbrev pub fd_clr : ℕ → FdSet → FdSet
fd_clr socket set fd = if fd == socket then false else set fd

-- FD_SETSIZE
abbrev pub fd_setsize : ℕ
fd_setsize = 1024

pub fd_set-kept : (socket : ℕ) (set : FdSet) (fd : ℕ) → set fd ≡ true → fd_set socket set fd ≡ true
fd_set-kept socket set fd h = elim (Bool-cases (fd == socket)) [
  | inl e ↦ rw e refl
  | inr e ↦ rw e h
]

pub fd_set_sound :
    (socket : ℕ) (set : FdSet) (fd : ℕ)
    → fd_set socket set fd ≡ true
    → (socket ≡ fd) ⊎ (set fd ≡ true)
fd_set_sound socket set fd h = elim (Bool-cases (fd == socket)) [
  | inl e ↦ inl (sym ((==_iff fd socket).0 e))
  | inr e ↦ inr (sym (unset e) ∙ h)
]
  where
    unset : (fd == socket) ≡ false → fd_set socket set fd ≡ set fd
    unset e = rw e refl

pub fd_set-other : (socket : ℕ) (set : FdSet) (fd : ℕ) → fd ≢ socket → fd_set socket set fd ≡ set fd
fd_set-other socket set fd n = rw (==_differs fd socket n) refl

pub fd_clr-other : (socket : ℕ) (set : FdSet) (fd : ℕ) → fd ≢ socket → fd_clr socket set fd ≡ set fd
fd_clr-other socket set fd n = rw (==_differs fd socket n) refl

pub fd_clr-same : (socket : ℕ) (set : FdSet) → fd_clr socket set socket ≡ false
fd_clr-same socket set = rw (==_self socket) refl

pub fd_clr_sound : (socket : ℕ) (set : FdSet) (fd : ℕ) → fd_clr socket set fd ≡ true → set fd ≡ true
fd_clr_sound socket set fd h = elim (Bool-cases (fd == socket)) [
  | inl e ↦ absurd (cc (cleared e, h))
  | inr e ↦ sym (unset e) ∙ h
]
  where
    cleared : (fd == socket) ≡ true → fd_clr socket set fd ≡ false
    cleared e = rw e refl

    unset : (fd == socket) ≡ false → fd_clr socket set fd ≡ set fd
    unset e = rw e refl
