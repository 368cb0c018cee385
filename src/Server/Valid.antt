-- ===== src/Server/Valid.antt =====
-- Which identifiers of a network thread are in use, and what keeps it so.
use learn_tars.Base.{
  ℕ, ◌≡◌, sym, ap, ◌∙◌, true, false, List, [], ◌∷◌, ◌==◌, ==_iff, ==_refl, Bool-cases,
  if◌then◌else◌, Option, none, some, inl, inr, All,
}
use learn_tars.Server.Connection.{Connection}
use learn_tars.Server.NetThread.{
  NetThread, Cmd, cmd_send, cmd_close, cmd_other, SendData, put, keep, del_connection,
}
use learn_tars.Server.Steps.{Has}

abbrev pub Connections : Type 0
Connections = ℕ → Option Connection

-- Every connection knows its identifier, and has nothing to send.
unfoldable pub Own : Connections → Type 0
Own m = (i : ℕ) (c : Connection) → m i ≡ some c → (c.uid ≡ i) × (c.sendbuffer ≡ [])

abbrev pub Answerable : Connections → Cmd → ℕ → Type 0
Answerable m cmd_send i = Has m i
Answerable m cmd_close i = Unit
Answerable m cmd_other i = ⊥

unfoldable pub Unused : Connections → ℕ → Type 0
Unused m i = m i ≡ none

abbrev pub Differs : ℕ → ℕ → Type 0
Differs i j = (j == i) ≡ false

abbrev pub Distinct : List ℕ → Type 0
Distinct [] = Unit
Distinct (i ∷ is) = All (Differs i) is × Distinct is

-- What holds of a thread at any time.
pub record Valid (t : NetThread) : Type 0 where
  pub own : Own t.connections
  pub seen : (i : ℕ) → t.watched i ≡ true → Has t.connections i
  pub unused : All (Unused t.connections) t.free
  pub distinct : Distinct t.free
  pub addressed : All (λ d. Answerable t.connections d.cmd d.to_uid) t.sbuffer

module _ (m : Connections) (k : ℕ) (c : Connection) where
  pub put_at : put k (some c) m k ≡ some c
  put_at = ap (λ b. if b then some c else m k) (==_refl k)

  pub put-Has : (i : ℕ) → Has m i → Has (put k (some c) m) i
  unfolding Has
  put-Has i (d, h) = elim (Bool-cases (i == k)) [
    | inl e ↦ (c, ap (λ b. if b then some c else m i) e)
    | inr e ↦ (d, ap (λ b. if b then some c else m i) e ∙ h)
  ]

  pub put-Own : c.uid ≡ k → c.sendbuffer ≡ [] → Own m → Own (put k (some c) m)
  unfolding Own
  put-Own u s o i d h = elim (Bool-cases (i == k)) [
    | inl e ↦
        let same : c ≡ d =
          ap (λ o. elim o [ none ↦ c | some x ↦ x ])
            (sym (ap (λ b. if b then some c else m i) e) ∙ h) in
        (
          sym (ap (λ c. c.uid) same) ∙ u ∙ sym ((==_iff i k).0 e),
          sym (ap (λ c. c.sendbuffer) same) ∙ s,
        )
    | inr e ↦ o i d (sym (ap (λ b. if b then some c else m i) e) ∙ h)
  ]

  Unused-put : (i : ℕ) → Differs k i → Unused m i → Unused (put k (some c) m) i
  unfolding Unused
  Unused-put i e u = ap (λ b. if b then some c else m i) e ∙ u

  pub All-Unused-put :
      (is : List ℕ) → All (Differs k) is → All (Unused m) is → All (Unused (put k (some c) m)) is
  All-Unused-put [] d u = tt
  All-Unused-put (i ∷ is) (e, d) (v, u) = (Unused-put i e v, All-Unused-put is d u)

  Unused-Differs : (i : ℕ) → Has m k → Unused m i → Differs k i
  unfolding Unused Has
  Unused-Differs i (d, h) u = elim (Bool-cases (i == k)) [
    | inl e ↦ let at : i ≡ k = (==_iff i k).0 e in let no : ⊥ = cc in elim no [ ]
    | inr e ↦ e
  ]

  pub All-Unused-Differs : (is : List ℕ) → Has m k → All (Unused m) is → All (Differs k) is
  All-Unused-Differs [] h u = tt
  All-Unused-Differs (i ∷ is) h (v, u) = (Unused-Differs i h v, All-Unused-Differs is h u)

  pub put-Unused : (is : List ℕ) → Has m k → All (Unused m) is → All (Unused (put k (some c) m)) is
  put-Unused is h u = All-Unused-put is (All-Unused-Differs is h u) u

  Answerable-put : (d : Cmd) (i : ℕ) → Answerable m d i → Answerable (put k (some c) m) d i
  Answerable-put cmd_send i h = put-Has i h
  Answerable-put cmd_close i h = tt
  Answerable-put cmd_other i h = h

  pub put-Answerable :
      (ds : List SendData)
      → All (λ d. Answerable m d.cmd d.to_uid) ds
      → All (λ d. Answerable (put k (some c) m) d.cmd d.to_uid) ds
  put-Answerable [] h = tt
  put-Answerable (d ∷ ds) (h, hs) = (Answerable-put d.cmd d.to_uid h, put-Answerable ds hs)

pub keep-Valid :
    (t : NetThread) (k : ℕ) (c : Connection)
    → Has t.connections k
    → c.uid ≡ k
    → c.sendbuffer ≡ []
    → Valid t
    → Valid (keep k c t)
keep-Valid t k c h u s v = record {
  own = put-Own t.connections k c u s v.own;
  seen = λ i w. put-Has t.connections k c i (v.seen i w);
  unused = put-Unused t.connections k c t.free h v.unused;
  distinct = v.distinct;
  addressed = put-Answerable t.connections k c t.sbuffer v.addressed;
}

pub del_connection-Valid : (c : Connection) (t : NetThread) → Valid t → Valid (del_connection c t)
unfolding del_connection
del_connection-Valid c t v = record {
  own = v.own;
  seen = λ i w. elim (Bool-cases (i == c.uid)) [
    | inl e ↦
        let f : false ≡ true = sym (ap (λ b. if b then false else t.watched i) e) ∙ w in
        let no : ⊥ = cc in elim no [ ]
    | inr e ↦ v.seen i (sym (ap (λ b. if b then false else t.watched i) e) ∙ w)
  ];
  unused = v.unused;
  distinct = v.distinct;
  addressed = v.addressed;
}
