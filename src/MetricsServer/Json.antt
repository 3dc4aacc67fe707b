-- ===== src/MetricsServer/Json.antt =====
-- The text of a snapshot, read back.
use trading_simulation.Prelude.{
  ℕ, ◌≡◌, ◌≢◌, refl, sym, ap, ◌∙◌, List, [], ◌∷◌, ◌++◌, append_assoc, Option, none, some, Bool,
  true, not, ◌&&◌, arith, ◌==◌, if◌then◌else◌, All, All-append, ==_ne,
}
use trading_simulation.Prelude.Int.{ℤ, pos, pos_part}
use trading_simulation.Prelude.Text.{codes}
use trading_simulation.Csv.{pieces, Lacks, pieces-separator}
use trading_simulation.StringMap.{lookup}
use trading_simulation.MetricsServer.{MetricsSnapshot, member, to_json}

-- A reader of such a text: behind a brace, at each comma a new member, which has a key in front of its
-- colon, and behind that a number up to a brace. Each field is what stands under its own key.
abbrev up_to_colon : List ℕ → List ℕ
up_to_colon [] = []
up_to_colon (c ∷ cs) = let rest = up_to_colon cs in if c == 58 then [] else c ∷ rest

abbrev behind_colon : List ℕ → List ℕ
behind_colon [] = []
behind_colon (c ∷ cs) = if c == 58 then cs else behind_colon cs

abbrev up_to_brace : List ℕ → List ℕ
up_to_brace [] = []
up_to_brace (c ∷ cs) = let rest = up_to_brace cs in if c == 125 then [] else c ∷ rest

abbrev cons_read : {A : Type 0} → Option A → Option (List A) → Option (List A)
cons_read (some a) (some xs) = some (a ∷ xs)
cons_read none xs = none
cons_read (some a) none = none

abbrev with_key : List ℕ → Option ℤ → Option (List ℕ × ℤ)
with_key key none = none
with_key key (some a) = some (key, a)

abbrev entries : (List ℕ → Option ℤ) → List (List ℕ) → Option (List (List ℕ × ℤ))
entries read [] = some []
entries read (piece ∷ rest) =
    cons_read (with_key (up_to_colon piece) (read (up_to_brace (behind_colon piece))))
      (entries read rest)

-- The numbers under some keys, in the order of the keys.
abbrev numbers : List (List ℕ) → List (List ℕ × ℤ) → Option (List ℤ)
numbers [] found = some []
numbers (key ∷ keys) found = cons_read (lookup key found) (numbers keys found)

abbrev numbers_of : List (List ℕ) → Option (List (List ℕ × ℤ)) → Option (List ℤ)
numbers_of keys none = none
numbers_of keys (some found) = numbers keys found

-- The keys of the fields, in the order of the record.
abbrev keys : List (List ℕ)
keys =
    codes "\"tick_p50\""
    ∷ codes "\"tick_p99\""
    ∷ codes "\"tick_p999\""
    ∷ codes "\"tick_max\""
    ∷ codes "\"tick_count\""
    ∷ codes "\"match_p50\""
    ∷ codes "\"match_p99\""
    ∷ codes "\"match_p999\""
    ∷ codes "\"match_max\""
    ∷ codes "\"match_count\""
    ∷ codes "\"dropped_ticks\""
    ∷ codes "\"dropped_execs\""
    ∷ codes "\"tick_queue_depth\""
    ∷ codes "\"exec_queue_depth\""
    ∷ codes "\"tick_queue_capacity\""
    ∷ codes "\"exec_queue_capacity\""
    ∷ []

abbrev snapshot_of : Option (List ℤ) → Option MetricsSnapshot
snapshot_of none = none
snapshot_of (some (a ∷ b ∷ c ∷ d ∷ e ∷ f ∷ g ∷ h ∷ i ∷ j ∷ k ∷ l ∷ m ∷ n ∷ o ∷ p ∷ [])) =
    some (record {
      tick_p50 = a;
      tick_p99 = b;
      tick_p999 = c;
      tick_max = d;
      tick_count = pos_part e;
      match_p50 = f;
      match_p99 = g;
      match_p999 = h;
      match_max = i;
      match_count = pos_part j;
      dropped_ticks = pos_part k;
      dropped_execs = pos_part l;
      tick_queue_depth = pos_part m;
      exec_queue_depth = pos_part n;
      tick_queue_capacity = pos_part o;
      exec_queue_capacity = pos_part p;
    })
snapshot_of (some xs) = none

abbrev pub read_json : (List ℕ → Option ℤ) → List ℕ → Option MetricsSnapshot
read_json read [] = none
read_json read (c ∷ text) =
    if c == 123 then snapshot_of (numbers_of keys (entries read (pieces 44 text))) else none

-- How numbers are written: `read` reads them back, and they have no comma and no brace.
pub record Writes (show : ℤ → List ℕ) (read : List ℕ → Option ℤ) : Type 0 where
  pub reads : (a : ℤ) → read (show a) ≡ some a
  pub no_comma : (a : ℤ) → Lacks 44 (show a)
  pub no_brace : (a : ℤ) → Lacks 125 (show a)

abbrev has_no_comma : List ℕ → Bool
has_no_comma [] = true
has_no_comma (c ∷ cs) = not (c == 44) && has_no_comma cs

comma_free : (name : List ℕ) → has_no_comma name ≡ true → Lacks 44 name
comma_free [] h = tt
comma_free (c ∷ cs) h = (ground (arith, h), comma_free cs (ground (arith, h)))

-- What stands before a number: no comma, and a colon at the end only.
abbrev IsLabel : List ℕ → Type 0
IsLabel name =
    (has_no_comma name ≡ true)
    × ((v : List ℕ) → behind_colon (name ++ v) ≡ v)
    × ((v : List ℕ) → up_to_colon (name ++ v) ≡ up_to_colon name)

up_to_brace-Lacks : (v rest : List ℕ) → Lacks 125 v → up_to_brace (v ++ 125 ∷ rest) ≡ v
up_to_brace-Lacks [] rest h = refl
up_to_brace-Lacks (c ∷ cs) rest h =
    rw (==_ne c 125 h.0) (ap (λ xs. c ∷ xs) (up_to_brace-Lacks cs rest h.1))

up_to_brace-whole : (v : List ℕ) → Lacks 125 v → up_to_brace v ≡ v
up_to_brace-whole [] h = refl
up_to_brace-whole (c ∷ cs) h = rw (==_ne c 125 h.0) (ap (λ xs. c ∷ xs) (up_to_brace-whole cs h.1))

pieces-end :
    (c x : ℕ) (xs : List ℕ) → Lacks c xs → x ≢ c → pieces c (xs ++ x ∷ []) ≡ (xs ++ x ∷ []) ∷ []
unfolding pieces
pieces-end c x [] h n = rw (==_ne x c n)
pieces-end c x (y ∷ ys) h n = rw (==_ne y c h.0, pieces-end c x ys h.1 n)

abbrev written : (ℤ → List ℕ) → List (List ℕ × ℤ) → List ℕ × ℤ → List ℕ
written show [] (name, a) = name ++ (show a ++ codes "}")
written show ((name, a) ∷ rest) last = member name (show a) (written show rest last)

abbrev values : List (List ℕ × ℤ) → List ℕ × ℤ → List (List ℕ × ℤ)
values [] (name, a) = (up_to_colon name, a) ∷ []
values ((name, a) ∷ rest) last = (up_to_colon name, a) ∷ values rest last

module _ (show : ℤ → List ℕ) (read : List ℕ → Option ℤ) (w : Writes show read) where
  entries-member :
      (name rest : List ℕ) (a : ℤ)
      → IsLabel name
      → entries read (pieces 44 (member name (show a) rest))
        ≡ cons_read (some (up_to_colon name, a)) (entries read (pieces 44 rest))
  entries-member name rest a h = rw (
    sym (append_assoc name (show a) (44 ∷ rest)),
    pieces-separator 44 (name ++ show a) rest
        (All-append (λ x. x ≢ 44) name (show a) (comma_free name h.0) (w.no_comma a)),
    h.1 (show a),
    h.2 (show a),
    up_to_brace-whole (show a) (w.no_brace a),
    w.reads a,
  )

  entries-written :
      (fields : List (List ℕ × ℤ)) (last : List ℕ × ℤ)
      → All (λ e. IsLabel e.0) fields
      → IsLabel last.0
      → entries read (pieces 44 (written show fields last)) ≡ some (values fields last)
  entries-written [] (name, a) h l = rw (
    sym (append_assoc name (show a) (125 ∷ [])),
    pieces-end 44 125 (name ++ show a)
        (All-append (λ x. x ≢ 44) name (show a) (comma_free name l.0) (w.no_comma a)) (omega arith),
    append_assoc name (show a) (125 ∷ []),
    l.1 (show a ++ 125 ∷ []),
    l.2 (show a ++ 125 ∷ []),
    up_to_brace-Lacks (show a) [] (w.no_brace a),
    w.reads a,
  )
  entries-written ((name, a) ∷ rest) last h l =
      entries-member name (written show rest last) a h.0
      ∙ ap (cons_read (some (up_to_colon name, a))) (entries-written rest last h.1 l)

  -- The text that the server sends for any snapshot is read back as that snapshot, each field by its key, if
  -- numbers are written without a comma and a brace and read back.
  pub read_json-to_json : (s : MetricsSnapshot) → read_json read (to_json show s) ≡ some s
  unfolding to_json lookup
  read_json-to_json s =
      ap (λ found. snapshot_of (numbers_of keys found))
        (entries-written
          ((codes "\"tick_p50\":", s.tick_p50)
            ∷ (codes "\"tick_p99\":", s.tick_p99)
            ∷ (codes "\"tick_p999\":", s.tick_p999)
            ∷ (codes "\"tick_max\":", s.tick_max)
            ∷ (codes "\"tick_count\":", pos s.tick_count)
            ∷ (codes "\"match_p50\":", s.match_p50)
            ∷ (codes "\"match_p99\":", s.match_p99)
            ∷ (codes "\"match_p999\":", s.match_p999)
            ∷ (codes "\"match_max\":", s.match_max)
            ∷ (codes "\"match_count\":", pos s.match_count)
            ∷ (codes "\"dropped_ticks\":", pos s.dropped_ticks)
            ∷ (codes "\"dropped_execs\":", pos s.dropped_execs)
            ∷ (codes "\"tick_queue_depth\":", pos s.tick_queue_depth)
            ∷ (codes "\"exec_queue_depth\":", pos s.exec_queue_depth)
            ∷ (codes "\"tick_queue_capacity\":", pos s.tick_queue_capacity)
            ∷ [])
          (codes "\"exec_queue_capacity\":", pos s.exec_queue_capacity)
          (
            (refl, (λ v. refl), λ v. refl),
            (
              (refl, (λ v. refl), λ v. refl),
              (
                (refl, (λ v. refl), λ v. refl),
                (
                  (refl, (λ v. refl), λ v. refl),
                  (
                    (refl, (λ v. refl), λ v. refl),
                    (
                      (refl, (λ v. refl), λ v. refl),
                      (
                        (refl, (λ v. refl), λ v. refl),
                        (
                          (refl, (λ v. refl), λ v. refl),
                          (
                            (refl, (λ v. refl), λ v. refl),
                            (
                              (refl, (λ v. refl), λ v. refl),
                              (
                                (refl, (λ v. refl), λ v. refl),
                                (
                                  (refl, (λ v. refl), λ v. refl),
                                  (
                                    (refl, (λ v. refl), λ v. refl),
                                    (
                                      (refl, (λ v. refl), λ v. refl),
                                      ((refl, (λ v. refl), λ v. refl), tt),
                                    ),
                                  ),
                                ),
                              ),
                            ),
                          ),
                        ),
                      ),
                    ),
                  ),
                ),
              ),
            ),
          )
          (refl, (λ v. refl), λ v. refl))
