-- ===== src/Examples/Jobs/Diamond.antt =====
-- Two threads that can both make their next call (examples/workergroups/main.c) can make them in either
-- order, and the states afterwards are the same.
use riot_csp_module.Common.{
  ℕ, suc, ◌<◌, ◌≡◌, ◌≢◌, sym, ap, ◌∙◌, List, [], ◌∷◌, ◌++◌, length, ◌==◌, arith, subst, Bool-cases,
  inl, inr,
}
use riot_csp_module.Examples.Jobs.{Who, Chan, Value, Prog, sends, receives}
use riot_csp_module.Examples.Jobs.Network.{num, key, most, Group, after, Step, sent, got}
use riot_csp_module.Examples.Jobs.Confluent.{
  put_same, put_other, key-from, key-to, after_comm, after_same,
}

abbrev pub Diamond : Who → Who → Group → Group → Type 0
Diamond w w' a b = (t : Group) × Step w' a t × Step w b t

-- a thread sends wherever its program is the same and the queue has room
Sends : Who → Group → ℕ → Value → Prog → Type 0
Sends w s k v p =
    (s' : Group)
    → s'.progs (num w) ≡ s.progs (num w)
    → (q : List Value) → s'.queues k ≡ q
    → length q < most
    → Step w s' (after (num w) p k (q ++ (v ∷ [])) s')

-- a thread receives wherever its program is the same and the queue holds a message
Gets : Who → Group → ℕ → (Value → Prog) → Type 0
Gets w s k next =
    (s' : Group)
    → s'.progs (num w) ≡ s.progs (num w)
    → (v : Value) (rest : List Value) → s'.queues k ≡ v ∷ rest
    → Step w s' (after (num w) (next v) k rest s')

sent-Sends :
    (w : Who) (s : Group) (j : Who) (l : Chan) (v : Value) (p : Prog)
    → s.progs (num w) ≡ sends j l v p
    → Sends w s (key w j l) v p
unfolding Sends
sent-Sends w s j l v p e s' same q is room =
    subst (λ x. Step w s' (after (num w) p (key w j l) (x ++ (v ∷ [])) s')) is
      (sent j l v p (same ∙ e) (subst (λ x. length x < most) (sym is) room))

got-Gets :
    (w : Who) (s : Group) (j : Who) (l : Chan) (next : Value → Prog)
    → s.progs (num w) ≡ receives j l next
    → Gets w s (key j w l) next
unfolding Gets
got-Gets w s j l next e s' same v rest is = got j l next v rest (same ∙ e) is

-- a call that a thread can make whatever the other threads did elsewhere
Acts : Who → Group → Prog → ℕ → List Value → Type 0
Acts w s p k q =
    (s' : Group)
    → s'.progs (num w) ≡ s.progs (num w)
    → s'.queues k ≡ s.queues k
    → Step w s' (after (num w) p k q s')

Sends-Acts :
    (w : Who) (s : Group) (k : ℕ) (v : Value) (p : Prog)
    → Sends w s k v p
    → length (s.queues k) < most
    → Acts w s p k (s.queues k ++ (v ∷ []))
unfolding Sends Acts
Sends-Acts w s k v p does room s' same is = does s' same (s.queues k) is room

Gets-Acts :
    (w : Who) (s : Group) (k : ℕ) (next : Value → Prog) (v : Value) (rest : List Value)
    → Gets w s k next
    → s.queues k ≡ v ∷ rest
    → Acts w s (next v) k rest
unfolding Gets Acts
Gets-Acts w s k next v rest does is s' same there = does s' same v rest (there ∙ is)

-- calls on different queues
apart :
    (w w' : Who) (s : Group) (p p' : Prog) (k k' : ℕ) (q q' : List Value)
    → Acts w s p k q
    → Acts w' s p' k' q'
    → num w ≢ num w'
    → k ≢ k'
    → Diamond w w' (after (num w) p k q s) (after (num w') p' k' q' s)
unfolding Acts
apart w w' s p p' k k' q q' does does' ne kn = (
  after (num w') p' k' q' (after (num w) p k q s),
  does' (after (num w) p k q s) (put_other (num w) (num w') p s.progs (λ e. ne (sym e)))
      (put_other k k' q s.queues (λ e. kn (sym e))),
  subst (Step w (after (num w') p' k' q' s)) (after_comm w w' p p' k k' q q' s ne kn) (
      does (after (num w') p' k' q' s) (put_other (num w') (num w) p' s.progs ne)
        (put_other k' k q' s.queues kn)),
)

-- a send and a receive on one queue
meet :
    (w w' : Who) (s : Group) (p : Prog) (next : Value → Prog) (k : ℕ) (v v' : Value)
    (rest : List Value)
    → Sends w s k v p
    → Gets w' s k next
    → num w ≢ num w'
    → length (s.queues k) < most
    → s.queues k ≡ v' ∷ rest
    → Diamond w w'
        (after (num w) p k (s.queues k ++ (v ∷ [])) s)
        (after (num w') (next v') k rest s)
unfolding Sends Gets
meet w w' s p next k v v' rest does does' ne room is =
    let q = s.queues k ++ (v ∷ []) in
    let left = rest ++ (v ∷ []) in
    let length_is : length (s.queues k) ≡ suc (length rest) = ap length is in
    (
      after (num w') (next v') k left (after (num w) p k q s),
      does' (after (num w) p k q s) (put_other (num w) (num w') p s.progs (λ e. ne (sym e))) v' left
          (put_same k q s.queues ∙ ap (λ x. x ++ (v ∷ [])) is),
      subst (Step w (after (num w') (next v') k rest s))
          (after_same w w' p (next v') k left rest q s ne)
          (does (after (num w') (next v') k rest s)
            (put_other (num w') (num w) (next v') s.progs ne) rest (put_same k rest s.queues)
            (omega arith)),
    )

-- a send and a receive, on one queue or on two
send_get :
    (w w' : Who) (s : Group) (p : Prog) (next : Value → Prog) (k k' : ℕ) (v v' : Value)
    (rest : List Value)
    → Sends w s k v p
    → Gets w' s k' next
    → num w ≢ num w'
    → length (s.queues k) < most
    → s.queues k' ≡ v' ∷ rest
    → Diamond w w'
        (after (num w) p k (s.queues k ++ (v ∷ [])) s)
        (after (num w') (next v') k' rest s)
send_get w w' s p next k k' v v' rest does does' ne room is = elim (Bool-cases (k == k')) [
  | inl e ↦
      let same : k' ≡ k = ground arith in
      subst
        (λ x.
          Diamond w w' (after (num w) p k (s.queues k ++ (v ∷ [])) s)
            (after (num w') (next v') x rest s))
        (sym same)
        (meet w w' s p next k v v' rest does (subst (λ x. Gets w' s x next) same does') ne room
          (subst (λ x. s.queues x ≡ v' ∷ rest) same is))
  | inr e ↦
      apart w w' s p (next v') k k' (s.queues k ++ (v ∷ [])) rest (Sends-Acts w s k v p does room)
        (Gets-Acts w' s k' next v' rest does' is) ne (λ same. absurd (ground arith))
]

swap : (w w' : Who) (a b : Group) → Diamond w w' a b → Diamond w' w b a
swap w w' a b (t, x, y) = (t, y, x)

-- Two threads that can both go on can do so in either order.
pub diamond :
    (w w' : Who) (s a b : Group) → num w ≢ num w' → Step w s a → Step w' s b → Diamond w w' a b
diamond w w' s _ _ ne (sent j l v p e room) (sent j' l' v' p' e' room') =
    apart w w' s p p' (key w j l) (key w' j' l') _ _
      (Sends-Acts w s _ v p (sent-Sends w s j l v p e) room)
      (Sends-Acts w' s _ v' p' (sent-Sends w' s j' l' v' p' e') room') ne
      (key-from w w' j j' l l' ne)
diamond w w' s _ _ ne (got j l next v rest e is) (got j' l' next' v' rest' e' is') =
    apart w w' s (next v) (next' v') (key j w l) (key j' w' l') rest rest'
      (Gets-Acts w s _ next v rest (got-Gets w s j l next e) is)
      (Gets-Acts w' s _ next' v' rest' (got-Gets w' s j' l' next' e') is') ne
      (key-to w w' j j' l l' ne)
diamond w w' s _ _ ne (sent j l v p e room) (got j' l' next v' rest e' is) =
    send_get w w' s p next _ _ v v' rest (sent-Sends w s j l v p e) (got-Gets w' s j' l' next e') ne
      room is
diamond w w' s _ _ ne (got j l next v rest e is) (sent j' l' v' p e' room) = swap w' w _ _ (
    send_get w' w s p next _ _ v' v rest (sent-Sends w' s j' l' v' p e') (got-Gets w s j l next e)
      (λ x. ne (sym x)) room is)
