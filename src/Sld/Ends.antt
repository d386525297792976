-- ===== src/Sld/Ends.antt =====
-- The loops of core_sim/src/sld.rs end: every number that is read shortens the text.
use cpuex2022_7_simulator.Common.{
  ℕ, zero, suc, ◌+◌, ◌<◌, ◌≤◌, ◌≢◌, arith, ◌==◌, inl, inr, Bool-cases, Option-cases, Outcome, done,
  fail, abort, ◌>>=◌,
}
use cpuex2022_7_simulator.Sld.{
  Scanner, IsScanner, ReadError, expected_int, expected_float, no_fuel, SldDataBuilder, minus_one,
  read_int, read_float, read_vec3, read_sld_env, read_rotation, read_object, read_objects, read_row,
  read_and_net, read_or_net, read_sld, from_sld, push_parsed, Read,
}

module _ {T N F : Type 0} (scan : Scanner T N F) where
  -- Neither a panic nor the end of the fuel; the text that is left is shorter than `n`.
  pub data Ends {A : Type 0} (n : ℕ) : Outcome (SldDataBuilder T) ReadError A → Type 0 where
    read_on : (a : A) (b : SldDataBuilder T) → scan.len b.rest < n → Ends n (done a b)
    stopped : (e : ReadError) (b : SldDataBuilder T) → e ≢ no_fuel → Ends n (fail e b)

  -- On a text of at most `n`.
  abbrev pub Always : {A : Type 0} → ℕ → Read scan A → Type 0
  Always n m = (b : SldDataBuilder T) → scan.len b.rest ≤ n → Ends n (m b)

  Ends-bind :
      {A B : Type 0} (n k : ℕ) (o : Outcome (SldDataBuilder T) ReadError A) (f : A → Read scan B)
      (b : SldDataBuilder T)
      → Ends n o
      → ((a : A) (b' : SldDataBuilder T) → scan.len b'.rest < n → Ends k (f a b'))
      → Ends k (((λ (_ : SldDataBuilder T). o) >>= f) b)
  Ends-bind n k (done a b') f b (read_on _ _ l) h = h a b' l
  Ends-bind n k (fail e b') f b (stopped _ _ l) h = stopped e b' l
  Ends-bind n k abort f b q h = elim q [ ]

  Always-bind :
      {A B : Type 0} {n : ℕ} {m : Read scan A} {f : A → Read scan B}
      → Always n m
      → ((a : A) → Always n (f a))
      → Always n (m >>= f)
  Always-bind {n} {m} {f} h g b l =
      Ends-bind n n (m b) f b (h b l) (λ a b' l'. g a b' (omega (arith, l')))

  Always-last :
      {A B : Type 0} {n : ℕ} {m : Read scan A} {f : A → Read scan B}
      → Always n m
      → ((a : A) (b : SldDataBuilder T) → scan.len b.rest < n → Ends n (f a b))
      → Always n (m >>= f)
  Always-last {n} {m} {f} h g b l = Ends-bind n n (m b) f b (h b l) g

  module _ (docs : IsScanner scan) where
    read_int-Always : (n : ℕ) → Always n (read_int scan)
    unfolding read_int
    read_int-Always n b l = elim (Option-cases (scan.int (scan.multispace0 b.rest))) [
      | inl e ↦ rw (read_int, e) (stopped expected_int b (λ e. cc))
      | inr ((rest, v), e) ↦
          rw (read_int, e)
            (read_on v _ (omega (arith, docs.int_lt _ rest v e, docs.space_le b.rest, l)))
    ]

    read_float-Always : (n : ℕ) → Always n (read_float scan)
    unfolding read_float
    read_float-Always n b l = elim (Option-cases (scan.recognize_float (scan.multispace0 b.rest))) [
      | inl e ↦ rw (read_float, e) (stopped expected_float b (λ e. cc))
      | inr ((rest, text), e) ↦
          let (x, p) = docs.float_parses _ rest text e in
          rw (read_float, e, p, push_parsed)
            (read_on tt _ (omega (arith, docs.float_lt _ rest text e, docs.space_le b.rest, l)))
    ]

    read_vec3-Always : (n : ℕ) → Always n (read_vec3 scan)
    unfolding read_vec3
    read_vec3-Always n = let f = read_float-Always n in Always-bind f (λ _. Always-bind f (λ _. f))

    read_sld_env-Always : (n : ℕ) → Always n (read_sld_env scan)
    unfolding read_sld_env
    read_sld_env-Always n =
        let f = read_float-Always n in
        Always-bind (read_vec3-Always n) (λ _. Always-bind f (λ _. Always-bind f (λ _.
          Always-bind (read_int-Always n) (λ _. Always-bind f (λ _. Always-bind f (λ _. f))))))

    read_rotation-Ends :
        (n is_rot : ℕ) (b : SldDataBuilder T)
        → scan.len b.rest < n
        → Ends n (read_rotation scan is_rot b)
    unfolding read_rotation
    read_rotation-Ends n is_rot b l = elim (Bool-cases (is_rot == 0)) [
      | inl e ↦ rw e (read_on tt b l)
      | inr e ↦ rw e (read_vec3-Always n b (omega (arith, l)))
    ]

    read_object-Always : (n : ℕ) → Always n (read_object scan)
    unfolding read_object
    read_object-Always n =
        let f = read_float-Always n in
        let v = read_vec3-Always n in
        let i = read_int-Always n in
        Always-bind i (λ _. Always-bind i (λ _. Always-bind i (λ is_rot. Always-bind v (λ _.
          Always-bind v (λ _. Always-bind f (λ _. Always-bind f (λ _.
            Always-bind f (λ _. Always-last v (λ _ b l. read_rotation-Ends n is_rot b l)))))))))

    -- A loop that reads a number in each round.
    read_objects-Ends :
        (fuel n index : ℕ) (b : SldDataBuilder T)
        → scan.len b.rest < fuel
        → scan.len b.rest ≤ n
        → Ends n (read_objects scan fuel index b)
    unfolding read_objects
    read_objects-Ends zero n index b g l = absurd (omega arith)
    read_objects-Ends (suc fuel) n index b g l =
        Ends-bind (scan.len b.rest) n (read_int scan b) _ b (read_int-Always _ b (omega arith))
          (λ id b1 l1. elim (Bool-cases (id == minus_one)) [
            | inl e ↦ rw e (read_on index b1 (omega (arith, l1, l)))
            | inr e ↦ rw e (
                Ends-bind (scan.len b1.rest) n (read_object scan b1) _ b1
                  (read_object-Always _ b1 (omega arith))
                  (λ _ b2 l2.
                    read_objects-Ends fuel n (index + 1) b2 (omega (arith, g, l1, l2))
                      (omega (arith, l, l1, l2))))
          ])

    read_row-Ends :
        (fuel n : ℕ) (b : SldDataBuilder T)
        → scan.len b.rest < fuel
        → scan.len b.rest ≤ n
        → Ends n (read_row scan fuel b)
    unfolding read_row
    read_row-Ends zero n b g l = absurd (omega arith)
    read_row-Ends (suc fuel) n b g l =
        Ends-bind (scan.len b.rest) n (read_int scan b) _ b (read_int-Always _ b (omega arith))
          (λ id b1 l1. elim (Bool-cases (id == minus_one)) [
            | inl e ↦ rw e (read_on tt b1 (omega (arith, l1, l)))
            | inr e ↦ rw e (read_row-Ends fuel n b1 (omega (arith, g, l1)) (omega (arith, l, l1)))
          ])

    read_and_net-Ends :
        (fuel n : ℕ) (b : SldDataBuilder T)
        → scan.len b.rest < fuel
        → scan.len b.rest ≤ n
        → Ends n (read_and_net scan fuel b)
    unfolding read_and_net
    read_and_net-Ends zero n b g l = absurd (omega arith)
    read_and_net-Ends (suc fuel) n b g l =
        Ends-bind (scan.len b.rest) n (read_int scan b) _ b (read_int-Always _ b (omega arith))
          (λ id b1 l1. elim (Bool-cases (id == minus_one)) [
            | inl e ↦ rw e (read_on tt b1 (omega (arith, l1, l)))
            | inr e ↦ rw e (
                Ends-bind (scan.len b1.rest) n (read_row scan fuel b1) _ b1
                  (read_row-Ends fuel _ b1 (omega (arith, g, l1)) (omega arith))
                  (λ _ b2 l2.
                    read_and_net-Ends fuel n b2 (omega (arith, g, l1, l2))
                      (omega (arith, l, l1, l2))))
          ])

    read_sld-Ends :
        (fuel n : ℕ) (b : SldDataBuilder T)
        → scan.len b.rest < fuel
        → scan.len b.rest ≤ n
        → Ends n (read_sld scan fuel b)
    unfolding read_sld read_or_net
    read_sld-Ends fuel n b g l =
        Ends-bind (scan.len b.rest) n (read_sld_env scan b) _ b
          (read_sld_env-Always _ b (omega arith))
          (λ _ b1 l1.
            Ends-bind (scan.len b.rest) n (read_objects scan fuel 0 b1) _ b1
              (read_objects-Ends fuel _ 0 b1 (omega (arith, g, l1)) (omega (arith, l1)))
              (λ _ b2 l2.
                Ends-bind (scan.len b.rest) n (read_and_net scan fuel b2) _ b2
                  (read_and_net-Ends fuel _ b2 (omega (arith, g, l2)) (omega (arith, l2)))
                  (λ _ b3 l3.
                    Ends-bind (scan.len b.rest) n (read_and_net scan fuel b3) _ b3
                      (read_and_net-Ends fuel _ b3 (omega (arith, g, l3)) (omega (arith, l3)))
                      (λ _ b4 l4. read_on _ b4 (omega (arith, l4, l))))))

    -- A scene is read to its end, or up to a number that is missing, whatever the text: with the
    -- length of the text and one more as fuel, the fuel does not run out. There is no panic. The
    -- parsers do what nom documents.
    pub from_sld-Ends :
        (input : T) → Ends (scan.len input) (from_sld scan (suc (scan.len input)) input)
    unfolding from_sld
    from_sld-Ends input = read_sld-Ends (suc (scan.len input)) _ _ (omega arith) (omega arith)
