-- ===== src/ExceptionTable/Writing.antt =====
-- An entry is written to a free cell, or over that of its address: translator/exception_info.c.
use la_tte.Common.{
  ℕ, suc, ◌*◌, ◌/◌, ◌≤◌, ◌≡◌, ◌≢◌, refl, sym, ap, ◌∙◌, subst, true, false, not, ◌||◌, ◌==◌, some,
  inl, inr, ◌⊎◌, true_branch, false_branch, ==_of_ne, ==_to, ||_elim, Bool-cases, update_ne, arith,
}
use la_tte.ExceptionTable.{ExceptionInfo, ExceptionInfoTable, stops, write, write_found, put}
use la_tte.ExceptionTable.Counts.{count_mono, count-without, without}
use la_tte.ExceptionTable.Probing.{
  Roomy, occupied_cells, is_occupied, place_in, place-within, FirstStop, first_stop, find-first,
}
use la_tte.ExceptionTable.Lookup.{
  look_up, Placed, stops_at_own, FirstStop-unique, look_up-at, look_up-absent, held_or_absent,
}

-- What a write of an entry does: it is found, and of the other addresses the same is found as
-- before.
pub record Written (table : ExceptionInfoTable) (entry : ExceptionInfo) (after : ExceptionInfoTable)
    : Type 0 where
  pub roomy : Roomy after
  pub placed : Placed after
  pub one_more : occupied_cells after ≤ suc (occupied_cells table)
  pub size_kept : after.size ≡ table.size
  pub own : look_up after entry.native_pc ≡ some entry
  pub others : (q : ℕ) → q ≢ 0 → q ≢ entry.native_pc → look_up after q ≡ look_up table q

-- An entry with an address other than 0 is written where the loop first stops for that address.
module _ (table : ExceptionInfoTable) (entry : ExceptionInfo) (j : ℕ) (r : Roomy table)
    (p : Placed table) (ne : entry.native_pc ≢ 0) (h : j ≤ table.size / 2)
    (f : FirstStop table entry.native_pc j) where
  abbrev key : ℕ
  key = entry.native_pc

  abbrev goal : ℕ
  goal = place_in table entry.native_pc j

  abbrev after : ExceptionInfoTable
  after = write table entry goal

  info_at_goal : (c : ℕ) → goal ≡ c → after.info c ≡ entry
  info_at_goal c e = true_branch (goal == c) entry (table.info c) (ground (arith, e))

  info_elsewhere : (c : ℕ) → goal ≢ c → after.info c ≡ table.info c
  info_elsewhere c d = update_ne table.info goal c entry d

  goal_or_not : (c : ℕ) → (goal ≡ c) ⊎ (goal ≢ c)
  goal_or_not c = elim (Bool-cases (goal == c)) [
    | inl y ↦ inl (==_to goal c y)
    | inr n ↦ inr (λ e. absurd (ground (arith, n, e)))
  ]

  stops_elsewhere : (q c : ℕ) → goal ≢ c → stops after q c ≡ stops table q c
  stops_elsewhere q c d =
      ap (λ (x : ExceptionInfo). (x.native_pc == 0) || (x.native_pc == q)) (info_elsewhere c d)

  pass_others : (q c : ℕ) → q ≢ key → stops table q c ≡ false → stops after q c ≡ false
  pass_others q c d s = elim (goal_or_not c) [
    | inl e ↦
        ap (λ (x : ExceptionInfo). (x.native_pc == 0) || (x.native_pc == q)) (info_at_goal c e)
        ∙ ground (arith, ==_of_ne key 0 ne, ==_of_ne key q (λ u. d (sym u)))
    | inr n ↦ stops_elsewhere q c n ∙ s
  ]

  own-FirstStop : FirstStop after key j
  own-FirstStop = (
    stops_at_own after key goal (ap (λ (x : ExceptionInfo). x.native_pc) (info_at_goal goal refl)),
    λ k l.
        stops_elsewhere key (place_in table key k)
          (λ e. absurd (ground (arith, f.1 k l, f.0, ap (stops table key) e)))
        ∙ f.1 k l,
  )

  Placed-after : Placed after
  Placed-after q c nz lc e = elim (goal_or_not c) [
    | inl g ↦
        let own : key ≡ q = sym (ap (λ (x : ExceptionInfo). x.native_pc) (info_at_goal c g)) ∙ e in
        subst (λ k. (i : ℕ) × (i ≤ table.size / 2) × FirstStop after k i × (place_in after k i ≡ c))
          own (j, h, own-FirstStop, g)
    | inr n ↦
        let was : (table.info c).native_pc ≡ q =
          sym (ap (λ (x : ExceptionInfo). x.native_pc) (info_elsewhere c n)) ∙ e in
        let at = p q c nz lc was in
        let other : q ≢ key = λ u. n (
          ap (place_in table key)
            (FirstStop-unique table key j at.0 f (subst (λ k. FirstStop table k at.0) u at.2))
          ∙ ap (λ k. place_in table k at.0) (sym u)
          ∙ at.3) in
        (
          at.0,
          at.1,
          (
            stops_at_own after q (place_in after q at.0)
                (ap (λ k. (after.info k).native_pc) at.3 ∙ e),
            λ k l. pass_others q (place_in table q k) other (at.2.1 k l),
          ),
          at.3,
        )
  ]

  occupied_after : occupied_cells after ≤ suc (occupied_cells table)
  occupied_after =
      let within = place-within table key j r.prime in
      let now : is_occupied after goal ≡ true =
        ap (λ (x : ExceptionInfo). not (x.native_pc == 0)) (info_at_goal goal refl)
        ∙ ap not (==_of_ne key 0 ne) in
      let rest =
        count_mono (without (is_occupied after) goal) (is_occupied table) table.size (λ c l t.
          elim (goal_or_not c) [
            | inl e ↦ absurd (ground (arith, t, e))
            | inr n ↦
                ap (λ (x : ExceptionInfo). not (x.native_pc == 0)) (sym (info_elsewhere c n))
                ∙ sym (false_branch (goal == c) false (is_occupied after c) (==_of_ne goal c n))
                ∙ t
          ]) in
      omega (arith, rest, count-without (is_occupied after) goal table.size within now)

  -- The cell that is written to has no other address.
  pub free_or_own : ((table.info goal).native_pc ≡ 0) ⊎ ((table.info goal).native_pc ≡ key)
  free_or_own =
      elim (||_elim ((table.info goal).native_pc == 0) ((table.info goal).native_pc == key) f.0) [
        | inl z ↦ inl (==_to (table.info goal).native_pc 0 z)
        | inr y ↦ inr (==_to (table.info goal).native_pc key y)
      ]

  not_goal : (q c : ℕ) → q ≢ 0 → q ≢ key → (table.info c).native_pc ≡ q → goal ≢ c
  not_goal q c nz nk e g = elim free_or_own [
    | inl z ↦ nz (sym e ∙ ap (λ k. (table.info k).native_pc) (sym g) ∙ z)
    | inr y ↦ nk (sym e ∙ ap (λ k. (table.info k).native_pc) (sym g) ∙ y)
  ]

  module _ (room : 2 * suc (occupied_cells table) ≤ table.size) where
    Roomy-after : Roomy after
    Roomy-after = record {
      prime = r.prime;
      int_size = r.int_size;
      half_free = omega (arith, room, occupied_after);
    }

    own_after : look_up after key ≡ some entry
    own_after =
        look_up-at after key goal Roomy-after Placed-after ne (place-within table key j r.prime)
          (ap (λ (x : ExceptionInfo). x.native_pc) (info_at_goal goal refl))
        ∙ ap some (info_at_goal goal refl)

    others_after : (q : ℕ) → q ≢ 0 → q ≢ key → look_up after q ≡ look_up table q
    others_after q nz nk = elim (held_or_absent table q) [
      | inl c ↦
          let same = info_elsewhere c.0 (not_goal q c.0 nz nk c.2) in
          look_up-at after q c.0 Roomy-after Placed-after nz c.1
            (ap (λ (x : ExceptionInfo). x.native_pc) same ∙ c.2)
          ∙ ap some same
          ∙ sym (look_up-at table q c.0 r p nz c.1 c.2)
      | inr a ↦
          look_up-absent after q Roomy-after nz (λ c l e. elim (goal_or_not c) [
            | inl g ↦ nk (sym e ∙ ap (λ (x : ExceptionInfo). x.native_pc) (info_at_goal c g))
            | inr n ↦ a c l (sym (ap (λ (x : ExceptionInfo). x.native_pc) (info_elsewhere c n)) ∙ e)
          ])
          ∙ sym (look_up-absent table q r nz a)
    ]

    pub write-Written : Written table entry after
    write-Written = record {
      roomy = Roomy-after;
      placed = Placed-after;
      one_more = occupied_after;
      size_kept = refl;
      own = own_after;
      others = others_after;
    }

-- Into a table with a prime number of cells, in which each occupied cell is where its address is
-- found and of which still half are free with one entry more, an entry with an address other than 0
-- is written without a crash: it is found by its address, of every other address the same is found
-- as before, and the table is again such a table.
pub put-Written :
    (table : ExceptionInfoTable)
    → (entry : ExceptionInfo) → Roomy table
    → Placed table
    → entry.native_pc ≢ 0
    → 2 * suc (occupied_cells table) ≤ table.size
    → (after : ExceptionInfoTable) × (put table entry ≡ some after) × Written table entry after
unfolding put
put-Written table entry r p ne room =
    let f = first_stop table entry.native_pc r in
    (
      write table entry (place_in table entry.native_pc f.0),
      ap (write_found table entry)
          (find-first table entry.native_pc f.0 r.prime r.int_size ne f.2 f.1),
      write-Written table entry f.0 r p ne f.1 f.2 room,
    )
