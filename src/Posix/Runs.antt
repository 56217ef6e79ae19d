-- ===== src/Posix/Runs.antt =====
-- Total correctness of a computation against views. Whatever state shows the view, and with at
-- most `signals` signals pending, the computation ends with the result in a state that shows the
-- final view.
use fusefs_block.Base.{ℕ, ◌≤◌, ◌≡◌, refl, ap, ◌∙◌, some, arith}
use fusefs_block.Posix.{Posix, Sys, M, pure, call, ◌>>=◌, ◌>>◌}
use fusefs_block.Posix.View.{View}
use fusefs_block.Posix.Laws.{IsPosix, Gives}

module _ {os : Posix} (law : IsPosix os) (signals : ℕ) where
  pub record Ends {A : Type 0} (m : M os.State A) (s : os.State) (a : A) (w : View) : Type 0 where
    pub after : os.State
    pub returns : m s ≡ some (a, after)
    pub shows : law.view after ≡ w
    pub calm : law.pending after ≤ signals

  pub record Runs {A : Type 0} (m : M os.State A) (v : View) (a : A) (w : View) : Type 0 where
    pub from : (s : os.State) → law.view s ≡ v → law.pending s ≤ signals → Ends m s a w

module _ {os : Posix} {law : IsPosix os} {signals : ℕ} where
  pub Runs-pure : {A : Type 0} (a : A) (v : View) → Runs law signals (pure a) v a v
  unfolding pure
  Runs-pure a v = record {
    from = λ s e h. record { after = s; returns = refl; shows = e; calm = h };
  }

  pub Runs-bind :
      {A B : Type 0} {m : M os.State A} (f : A → M os.State B) {v w x : View} {a : A} {b : B}
      → Runs law signals m v a w
      → Runs law signals (f a) w b x
      → Runs law signals (m >>= f) v b x
  unfolding ◌>>=◌
  Runs-bind f r q = record {
    from = λ s e h.
        let first = r.from s e h in
        let then_ = q.from first.after first.shows first.calm in
        record {
          after = then_.after;
          returns = rw (first.returns, ◌>>=◌) then_.returns;
          shows = then_.shows;
          calm = then_.calm;
        };
  }

  pub Runs-seq :
      {A B : Type 0} {m : M os.State A} {k : M os.State B} {v w x : View} {a : A} {b : B}
      → Runs law signals m v a w
      → Runs law signals k w b x
      → Runs law signals (m >> k) v b x
  unfolding ◌>>◌
  Runs-seq r q = Runs-bind _ r q

  pub Runs-call :
      {A : Type 0} (f : os.State → Sys A × os.State) {v : View} {a : Sys A} {w : View}
      → ((s : os.State) → law.view s ≡ v → Gives law.view law.pending (f s) a w (law.pending s))
      → Runs law signals (call f) v a w
  unfolding call
  Runs-call {A} f g = record {
    from = λ s e h.
        let r = g s e in
        record {
          after = (f s).1;
          returns = ap_pair s r.result;
          shows = r.view_after;
          calm = omega (arith, r.pending_after);
        };
  }
    where
      ap_pair : (s : os.State) {a : Sys A} → (f s).0 ≡ a → some (f s) ≡ some (a, (f s).1)
      ap_pair s e = λ i. some (e i, (f s).1)

  -- A computation that goes on as another one does.
  pub Ends-step :
      {A : Type 0} {m m' : M os.State A} {s s' : os.State} {a : A} {w : View}
      → m s ≡ m' s'
      → Ends law signals m' s' a w
      → Ends law signals m s a w
  Ends-step e r = record {
    after = r.after;
    returns = e ∙ r.returns;
    shows = r.shows;
    calm = r.calm;
  }

  pub Ends-cast :
      {A : Type 0} {m : M os.State A} {s : os.State} {a a' : A} {w w' : View}
      → a ≡ a'
      → w ≡ w'
      → Ends law signals m s a w
      → Ends law signals m s a' w'
  Ends-cast e f r = record {
    after = r.after;
    returns = r.returns ∙ ap (λ t. some (t, r.after)) e;
    shows = r.shows ∙ f;
    calm = r.calm;
  }

  pub Runs-cast :
      {A : Type 0} {m : M os.State A} {v : View} {a a' : A} {w w' : View}
      → a ≡ a'
      → w ≡ w'
      → Runs law signals m v a w
      → Runs law signals m v a' w'
  Runs-cast e f r = record { from = λ s k h. Ends-cast e f (r.from s k h) }
