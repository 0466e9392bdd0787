-- ===== src/Cluster/Confirmed.antt =====
-- cluster/failure_detection.go `promoteRecoveredNodes`: what it takes to be confirmed.
use veltrix_db.Base.{
  ℕ, suc, ◌+◌, ◌≤◌, ◌≡◌, inl, inr, refl, ap, ◌∙◌, Bool, true, false, not, ◌||◌, List, [], ◌∷◌,
  arith, ltb, if◌then◌else◌, bytes_eq, bytes_eq_refl, eq_of-bytes_eq, Bool-cases,
}
use veltrix_db.Cluster.Types.{Member}
use veltrix_db.Cluster.Detector.{Detector, number_of, drop_number, put_number, last_beat}
use veltrix_db.Cluster.Recovery.{confirm, confirmations}
use veltrix_db.Cluster.Found.{bytes_eq-apart}

-- An answer to a probe of a node, at a time.
pub record Answer : Type 0 where
  pub ok : Bool
  pub now : ℕ
  pub target : Member

-- After answers, the newest first.
abbrev pub confirm_all : List Answer → Detector → Detector
confirm_all [] fd = fd
confirm_all (a ∷ as') fd = (confirm a.ok a.now a.target (confirm_all as' fd)).1

-- How many of a node's newest answers were good, one after the other.
abbrev pub streak : List ℕ → List Answer → ℕ
streak id [] = 0
streak id (a ∷ as') =
    let rest = streak id as' in
    if bytes_eq a.target.id id then (if a.ok then suc rest else 0) else rest

number_of-drop :
    (i id : List ℕ) (m : List (List ℕ × ℕ))
    → number_of id (drop_number i m) ≡ (if bytes_eq i id then 0 else number_of id m)
number_of-drop i id [] = ground arith
number_of-drop i id ((k, v) ∷ m) =
    let rest = number_of-drop i id m in
    elim (Bool-cases (bytes_eq k i)) [
      | inl e ↦
          let same : bytes_eq k id ≡ bytes_eq i id =
            ap (λ x. bytes_eq x id) (eq_of-bytes_eq k i e) in
          elim (Bool-cases (bytes_eq i id)) [
            | inl f ↦ rw (e, f) (rest ∙ rw f refl)
            | inr f ↦ rw (e, f, same ∙ f) (rest ∙ rw f refl)
          ]
      | inr e ↦ elim (Bool-cases (bytes_eq k id)) [
        | inl f ↦ rw (e, f, bytes_eq-apart k i id e f) refl
        | inr f ↦ rw (e, f) rest
      ]
    ]

pub number_of-put :
    (i id : List ℕ) (v : ℕ) (m : List (List ℕ × ℕ))
    → number_of id (put_number i v m) ≡ (if bytes_eq i id then v else number_of id m)
number_of-put i id v m = ground (arith, number_of-drop i id m)

-- The count after an answer.
counted :
    (ok : Bool) (now : ℕ) (t : Member) (id : List ℕ) (fd : Detector)
    → number_of id (confirm ok now t fd).1.recovery_ok ≤ (
        if bytes_eq t.id id
        then (if ok then suc (number_of id fd.recovery_ok) else 0)
        else number_of id fd.recovery_ok)
unfolding confirm
counted false now t id fd = ground (arith, number_of-drop t.id id fd.recovery_ok)
counted true now t id fd =
    let m = fd.recovery_ok in
    elim (Bool-cases (
      ltb (number_of t.id m + 1) (confirmations fd)
      || not (ltb now (last_beat fd t + fd.config.suspect_threshold)))) [
        | inr c ↦ rw (confirm, c) (ground (arith, number_of-drop t.id id m))
        | inl c ↦
            rw (confirm, c)
              (elim (Bool-cases (bytes_eq t.id id)) [
                | inr f ↦ ground (arith, f, number_of-put t.id id (number_of t.id m + 1) m)
                | inl f ↦
                    let same : number_of t.id m ≡ number_of id m =
                      ap (λ x. number_of x m) (eq_of-bytes_eq t.id id f) in
                    ground (arith, f, same, number_of-put t.id id (number_of t.id m + 1) m)
              ])
      ]

enough : (n need : ℕ) → ltb n need ≡ false → need ≤ n
enough n need h = ground arith

ready :
    (ok : Bool) (now : ℕ) (t : Member) (fd : Detector)
    → (confirm ok now t fd).0 ≡ true
    → (ok ≡ true)
      × (confirmations fd ≤ number_of t.id fd.recovery_ok + 1)
      × (ltb now (last_beat fd t + fd.config.suspect_threshold) ≡ true)
unfolding confirm
ready false now t fd c = absurd cc
ready true now t fd c =
    let count = number_of t.id fd.recovery_ok in
    let need = confirmations fd in
    elim (Bool-cases (ltb (count + 1) need)) [
      | inl few ↦ let no : (confirm true now t fd).0 ≡ false = rw (confirm, few) refl in absurd cc
      | inr few ↦ elim (Bool-cases (ltb now (last_beat fd t + fd.config.suspect_threshold))) [
        | inr stale ↦
            let no : (confirm true now t fd).0 ≡ false = rw (confirm, few, stale) refl in absurd cc
        | inl fresh ↦ (refl, enough (count + 1) need few, fresh)
      ]
    ]

number_of-confirm :
    (a : Answer) (id : List ℕ) (fd : Detector)
    → number_of id (confirm a.ok a.now a.target fd).1.recovery_ok ≤ (
        if bytes_eq a.target.id id
        then (if a.ok then suc (number_of id fd.recovery_ok) else 0)
        else number_of id fd.recovery_ok)
unfolding confirm
number_of-confirm a id fd = counted a.ok a.now a.target id fd

number_of-streak :
    (as' : List Answer) (id : List ℕ) (fd : Detector)
    → number_of id fd.recovery_ok ≡ 0
    → number_of id (confirm_all as' fd).recovery_ok ≤ streak id as'
number_of-streak [] id fd h = omega (arith, h)
number_of-streak (a ∷ as') id fd h =
    ground (arith, number_of-confirm a id (confirm_all as' fd), number_of-streak as' id fd h)

-- A node with no good answers counted, which is confirmed after some answers, has given good ones without a
-- break, the last of them included, as many as the configuration asks for; and its last heartbeat is younger
-- than the suspect threshold.
pub confirm-streak :
    (as' : List Answer) (a : Answer) (fd : Detector)
    → number_of a.target.id fd.recovery_ok ≡ 0
    → (confirm a.ok a.now a.target (confirm_all as' fd)).0 ≡ true
    → (confirmations (confirm_all as' fd) ≤ streak a.target.id (a ∷ as'))
      × (ltb a.now (
            last_beat (confirm_all as' fd) a.target + (confirm_all as' fd).config.suspect_threshold)
          ≡ true)
unfolding confirm
confirm-streak as' a fd h c =
    let (good, most, fresh) = ready a.ok a.now a.target (confirm_all as' fd) c in
    let few = number_of-streak as' a.target.id fd h in
    (rw (bytes_eq_refl a.target.id, good) (omega (arith, few, most)), fresh)
