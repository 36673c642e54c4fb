-- ===== src/Proc/Pids.antt =====
-- The pids of the process table: `allocpid` hands out each number once, until `nextpid` wraps.
use my_os_proj.Base.{
  ℕ, zero, suc, ◌+◌, ◌<◌, ◌≡◌, ◌≢◌, ◌⊎◌, inl, inr, refl, sym, ◌∙◌, ap, arith, ◌==◌, Option, some,
  List, [], ◌∷◌, get_elem?, set, length, Bool-cases, Option-cases, ℕ_discrete,
}
use my_os_proj.Base.Elements.{get-set, get-set_apart}
use my_os_proj.Proc.{Chan, Proc, Table, ptr_eq}
use my_os_proj.Proc.Table.{
  wake, wakeup_from, wakeup, mark_killed, kill, reparent_loop, reparent, chan_of,
}

unfoldable pub pids : Table → List ℕ
pids [] = []
pids (p ∷ ps) = p.pid ∷ pids ps

-- Every pid in the table is below the next one, and those that are not 0 are distinct.
pub record Pids (next : ℕ) (ns : List ℕ) : Type 0 where
  pub below : (i n : ℕ) → get_elem? ns i ≡ some n → n < next
  pub distinct : (i j n : ℕ) → get_elem? ns i ≡ some n → get_elem? ns j ≡ some n → n ≢ 0 → i ≡ j

pub get-pids :
    (ps : Table) (i : ℕ) (p : Proc) → get_elem? ps i ≡ some p → get_elem? (pids ps) i ≡ some p.pid
unfolding pids
get-pids [] i p e = cc
get-pids (q ∷ ps) zero p e = let same : q ≡ p = cc in cc
get-pids (q ∷ ps) (suc i) p e = get-pids ps i p e

pub pids-set : (ps : Table) (i : ℕ) (p : Proc) → pids (set ps i p) ≡ set (pids ps) i p.pid
unfolding pids
pids-set [] i p = refl
pids-set (q ∷ ps) zero p = refl
pids-set (q ∷ ps) (suc i) p = ap (λ ns. q.pid ∷ ns) (pids-set ps i p)

set_same : (ns : List ℕ) (i n : ℕ) → get_elem? ns i ≡ some n → set ns i n ≡ ns
set_same [] i n e = refl
set_same (m ∷ ns) zero n e = let same : m ≡ n = cc in cc
set_same (m ∷ ns) (suc i) n e = ap (λ l. m ∷ l) (set_same ns i n e)

-- A change of a process that is not its pid.
pub pids-set_same :
    (ps : Table) (i : ℕ) (p q : Proc)
    → get_elem? ps i ≡ some p
    → q.pid ≡ p.pid
    → pids (set ps i q) ≡ pids ps
pids-set_same ps i p q e same =
    pids-set ps i q
    ∙ ap (λ n. set (pids ps) i n) same
    ∙ set_same (pids ps) i p.pid (get-pids ps i p e)

pid-wake : (me : ℕ) (chan : Chan) (i : ℕ) (p : Proc) → (wake me chan i p).pid ≡ p.pid
unfolding wake
pid-wake me chan i p = ground arith

pids-wakeup_from :
    (me : ℕ) (chan : Chan) (i : ℕ) (ps : Table) → pids (wakeup_from me chan i ps) ≡ pids ps
unfolding pids wakeup_from
pids-wakeup_from me chan i [] = refl
pids-wakeup_from me chan i (p ∷ ps) =
    rw (pid-wake me chan i p, pids-wakeup_from me chan (i + 1) ps) refl

pub pids-wakeup : (me : ℕ) (chan : Chan) (ps : Table) → pids (wakeup me chan ps) ≡ pids ps
unfolding wakeup
pids-wakeup me chan ps = pids-wakeup_from me chan 0 ps

pid-mark_killed : (p : Proc) → (mark_killed p).pid ≡ p.pid
unfolding mark_killed
pid-mark_killed p = ground arith

pub pids-kill : (pid : ℕ) (ps : Table) → pids (kill pid ps).0 ≡ pids ps
unfolding pids kill
pids-kill pid [] = refl
pids-kill pid (p ∷ ps) = elim (Bool-cases (p.pid == pid)) [
  | inl e ↦ rw (e, pid-mark_killed p) refl
  | inr e ↦ rw (e, pids-kill pid ps) refl
]

pids-reparent_loop :
    (rounds i me p : ℕ) (initproc : Option ℕ) (ps : Table)
    → pids (reparent_loop rounds i me p initproc ps) ≡ pids ps
unfolding reparent_loop
pids-reparent_loop zero i me p initproc ps = refl
pids-reparent_loop (suc rounds) i me p initproc ps = elim (Option-cases (get_elem? ps i)) [
  | inl e ↦ rw (e, reparent_loop) refl
  | inr (pp, e) ↦ elim (Bool-cases (ptr_eq pp.parent (some p))) [
    | inl child ↦
        rw (reparent_loop, e, child)
          (pids-reparent_loop rounds (i + 1) me p initproc _
            ∙ pids-wakeup me (chan_of initproc) _
            ∙ pids-set_same ps i pp (record pp { parent = initproc }) e refl)
    | inr other ↦ rw (reparent_loop, e, other) (pids-reparent_loop rounds (i + 1) me p initproc ps)
  ]
]

pub pids-reparent :
    (me p : ℕ) (initproc : Option ℕ) (ps : Table) → pids (reparent me p initproc ps) ≡ pids ps
unfolding reparent
pids-reparent me p initproc ps = pids-reparent_loop (length ps) 0 me p initproc ps

set_entry :
    (ns : List ℕ) (i j n v m : ℕ)
    → get_elem? ns i ≡ some n
    → get_elem? (set ns i v) j ≡ some m
    → ((i ≡ j) × (m ≡ v)) ⊎ ((i ≢ j) × (get_elem? ns j ≡ some m))
set_entry ns i j n v m e e' = elim (ℕ_discrete i j) [
  | yes same ↦ inl (same, cc (ap (get_elem? (set ns i v)) same, get-set ns i n v e))
  | no apart ↦ inr (apart, sym (get-set_apart ns i j v apart) ∙ e')
]

-- A slot whose pid is reset.
pub Pids-reset :
    (next i n : ℕ) (ns : List ℕ) → get_elem? ns i ≡ some n → Pids next ns → Pids next (set ns i 0)
Pids-reset next i n ns e h = record {
  below = λ j m ej. elim (set_entry ns i j n 0 m e ej) [
    | inl (same, z) ↦ omega (arith, h.below i n e)
    | inr (apart, old) ↦ h.below j m old
  ];
  distinct = λ j k m ej ek ne. elim (set_entry ns i j n 0 m e ej) [
    | inl (same, z) ↦ absurd (ne z)
    | inr (apart, old) ↦ elim (set_entry ns i k n 0 m e ek) [
      | inl (same, z) ↦ absurd (ne z)
      | inr (apart', old') ↦ h.distinct j k m old old' ne
    ]
  ];
}

-- A slot that gets the next pid.
pub Pids-next :
    (next i n : ℕ) (ns : List ℕ)
    → get_elem? ns i ≡ some n
    → Pids next ns
    → Pids (next + 1) (set ns i next)
Pids-next next i n ns e h = record {
  below = λ j m ej. elim (set_entry ns i j n next m e ej) [
    | inl (same, z) ↦ omega arith
    | inr (apart, old) ↦ omega (arith, h.below j m old)
  ];
  distinct = λ j k m ej ek ne. elim (set_entry ns i j n next m e ej) [
    | inl (same, z) ↦ elim (set_entry ns i k n next m e ek) [
      | inl (same', z') ↦ omega arith
      | inr (apart', old') ↦ omega (arith, h.below k m old')
    ]
    | inr (apart, old) ↦ elim (set_entry ns i k n next m e ek) [
      | inl (same', z') ↦ omega (arith, h.below j m old)
      | inr (apart', old') ↦ h.distinct j k m old old' ne
    ]
  ];
}
