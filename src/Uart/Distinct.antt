-- ===== src/Uart/Distinct.antt =====
-- The ports that `register_uart_port` of drivers/uart_core.c has in its table.
use cyanea.Prelude.{
  ℕ, zero, suc, ◌+◌, ◌%◌, ◌^◌, ◌≡◌, ◌≢◌, ◌⊎◌, inl, inr, refl, sym, ap, ◌∙◌, true, false, List, [],
  ◌∷◌, none, some, ◌==◌, get_elem?, get_elem?-set_ne, set, ℤ, pos, Bool-cases, Option-cases, arith,
}
use cyanea.Console.{enospc, einval}
use cyanea.Uart.{
  UartPort, port_unknown, eexist, uart_match_port, find_match_port, first_unknown,
  register_uart_port,
}

-- Two ports are one: port numbers of 16 bits, or addresses, that are equal.
abbrev pub SamePort : UartPort → UartPort → Type 0
SamePort p q =
    (p.io_type ≡ q.io_type)
    × (((p.io_type ≡ 0) × (p.io % 2 ^ 16 ≡ q.io % 2 ^ 16)) ⊎ ((p.io_type ≡ 1) × (p.io ≡ q.io)))

match-SamePort : (p q : UartPort) → uart_match_port p q ≡ true → SamePort p q
unfolding uart_match_port
match-SamePort p q h = ground arith

SamePort-match : (p q : UartPort) → SamePort p q → uart_match_port p q ≡ true
unfolding uart_match_port
SamePort-match p q h = ground arith

differ : (p q : UartPort) → uart_match_port p q ≡ false → ¬ (SamePort p q)
differ p q e s = let m = SamePort-match p q s in ground (arith, e, m)

-- A port in use at an entry.
pub record At (ports : List UartPort) (i : ℕ) (p : UartPort) : Type 0 where
  pub found : get_elem? ports i ≡ some p
  pub known : p.type ≢ port_unknown

-- Ports in use have the indices of their entries, and no two of them are the same.
pub record Good (ports : List UartPort) : Type 0 where
  pub indexed : (i : ℕ) (p : UartPort) → At ports i p → p.index ≡ i
  pub distinct : (i j : ℕ) (p q : UartPort) → At ports i p → At ports j q → SamePort p q → i ≡ j

pub data Outcome (up : UartPort) (ports : List UartPort) (r : ℤ × List UartPort) : Type 0 where
  no_clock : up.uart_clock ≡ 0 → r ≡ (einval, ports) → Outcome up ports r
  exists :
      (i : ℕ) (p : UartPort)
      → get_elem? ports i ≡ some p
      → SamePort p up
      → r ≡ (eexist, ports)
      → Outcome up ports r
  no_room :
      ((i : ℕ) (p : UartPort) → get_elem? ports i ≡ some p → p.type ≢ port_unknown)
      → r ≡ (enospc, ports)
      → Outcome up ports r
  registered :
      (i : ℕ)
      → up.uart_clock ≢ 0
      → ((j : ℕ) (p : UartPort) → get_elem? ports j ≡ some p → ¬ (SamePort p up))
      → r.0 ≡ pos 0
      → get_elem? r.1 i ≡ some (record up { index = i })
      → ((p : UartPort) → get_elem? ports i ≡ some p → p.type ≡ port_unknown)
      → ((j : ℕ) → i ≢ j → get_elem? r.1 j ≡ get_elem? ports j)
      → Outcome up ports r

match-sym : (p q : UartPort) → uart_match_port p q ≡ uart_match_port q p
unfolding uart_match_port
match-sym p q = ground arith

find_match_port-found :
    (up : UartPort) (ports : List UartPort)
    → find_match_port up ports ≡ true
    → (i : ℕ) × (p : UartPort) × (get_elem? ports i ≡ some p) × (uart_match_port p up ≡ true)
unfolding find_match_port
find_match_port-found up [] h = absurd (ground arith)
find_match_port-found up (p ∷ ports) h = elim (Bool-cases (uart_match_port p up)) [
  | inl e ↦ (0, p, refl, e)
  | inr e ↦
      let later : find_match_port up ports ≡ true = sym (rw (find_match_port, e) refl) ∙ h in
      let (i, q, f, m) = find_match_port-found up ports later in (suc i, q, f, m)
]

same_port : (p q : UartPort) → some p ≡ some q → p ≡ q
same_port p q e = ap (λ o. elim o [ none ↦ p | some x ↦ x ]) e

find_match_port-later :
    (up q : UartPort) (ports : List UartPort)
    → find_match_port up (q ∷ ports) ≡ false
    → (uart_match_port q up ≡ false) × (find_match_port up ports ≡ false)
unfolding find_match_port
find_match_port-later up q ports h = elim (Bool-cases (uart_match_port q up)) [
  | inl e ↦ absurd (ground (arith, e, h))
  | inr e ↦ (e, sym (rw (find_match_port, e) refl) ∙ h)
]

find_match_port-missing :
    (up : UartPort) (ports : List UartPort)
    → find_match_port up ports ≡ false
    → (i : ℕ) (p : UartPort) → get_elem? ports i ≡ some p
    → uart_match_port p up ≡ false
find_match_port-missing up [] h i p f = absurd (ground arith)
find_match_port-missing up (q ∷ ports) h zero p f =
    ap (λ x. uart_match_port x up) (sym (same_port q p f)) ∙ (find_match_port-later up q ports h).0
find_match_port-missing up (q ∷ ports) h (suc i) p f =
    find_match_port-missing up ports (find_match_port-later up q ports h).1 i p f

known_all :
    (q p : UartPort) (ports : List UartPort) (i : ℕ)
    → get_elem? (q ∷ ports) i ≡ some p
    → q.type ≢ port_unknown
    → ((j : ℕ) (r : UartPort) → get_elem? ports j ≡ some r → r.type ≢ port_unknown)
    → p.type ≢ port_unknown
known_all q p ports zero f known rest = λ e. known (ap (λ x. x.type) (same_port q p f) ∙ e)
known_all q p ports (suc i) f known rest = rest i p f

-- What the loop finds.
first_unknown-none :
    (ports : List UartPort) (n : ℕ)
    → first_unknown ports n ≡ none
    → (i : ℕ) (p : UartPort) → get_elem? ports i ≡ some p
    → p.type ≢ port_unknown
unfolding first_unknown
first_unknown-none [] n h i p f = absurd (ground arith)
first_unknown-none (q ∷ ports) n h i p f = elim (Bool-cases (q.type == port_unknown)) [
  | inl e ↦ absurd (ground (arith, e, h))
  | inr e ↦
      let later : first_unknown ports (n + 1) ≡ none = sym (rw (first_unknown, e) refl) ∙ h in
      known_all q p ports i f (ground (arith, e)) (first_unknown-none ports (n + 1) later)
]

first_unknown-some :
    (ports : List UartPort) (n k : ℕ)
    → first_unknown ports n ≡ some k
    → (i : ℕ) × (k ≡ n + i)
      × (p : UartPort) × (get_elem? ports i ≡ some p)
      × (p.type ≡ port_unknown)
unfolding first_unknown
first_unknown-some [] n k h = absurd (ground arith)
first_unknown-some (q ∷ ports) n k h = elim (Bool-cases (q.type == port_unknown)) [
  | inl e ↦
      let here : some n ≡ some k = sym (rw (first_unknown, e) refl) ∙ h in
      (0, ground (arith, here), q, refl, ground (arith, e))
  | inr e ↦
      let later : first_unknown ports (n + 1) ≡ some k = sym (rw (first_unknown, e) refl) ∙ h in
      let (i, k_is, p, f, u) = first_unknown-some ports (n + 1) k later in
      (suc i, omega (arith, k_is), p, f, u)
]

get_elem?-set :
    (ports : List UartPort) (i : ℕ) (p q : UartPort)
    → get_elem? ports i ≡ some p
    → get_elem? (set ports i q) i ≡ some q
get_elem?-set [] i p q h = absurd (ground arith)
get_elem?-set (x ∷ ports) zero p q h = refl
get_elem?-set (x ∷ ports) (suc i) p q h = get_elem?-set ports i p q h

match-index :
    (i : ℕ) (p up : UartPort) → uart_match_port p (record up { index = i }) ≡ uart_match_port p up
unfolding uart_match_port
match-index i p up = refl

place_of :
    (ports : List UartPort) (i j : ℕ) (new old p : UartPort)
    → get_elem? ports i ≡ some old
    → At (set ports i new) j p
    → ((i ≡ j) × (p ≡ new)) ⊎ At ports j p
place_of ports i j new old p there a = elim (Bool-cases (i == j)) [
  | inl e ↦
      let same : i ≡ j = ground arith in
      inl (
        same,
        sym (
            same_port new p (
              sym (get_elem?-set ports i old new there)
              ∙ ap (get_elem? (set ports i new)) same
              ∙ a.found)),
      )
  | inr e ↦ inr (record {
    found = sym (get_elem?-set_ne ports i j new (ground arith)) ∙ a.found;
    known = a.known;
  })
]

-- A port that matches no other one is put into an entry.
set-Good :
    (ports : List UartPort) (i : ℕ) (up old : UartPort)
    → Good ports
    → get_elem? ports i ≡ some old
    → ((j : ℕ) (p : UartPort) → get_elem? ports j ≡ some p → uart_match_port p up ≡ false)
    → Good (set ports i (record up { index = i }))
set-Good ports i up old g there alone =
    let new : UartPort = record up { index = i } in
    let place = λ (j : ℕ) (p : UartPort) (a : At (set ports i new) j p).
      place_of ports i j new old p there a in
    let clash : (p q : UartPort)
        → p ≡ new
        → uart_match_port q up ≡ false
        → uart_match_port p q ≡ true
        → ⊥ =
      λ p q same never m.
        let seen : uart_match_port q up ≡ true =
          sym (match-index i q up)
          ∙ sym (match-sym new q)
          ∙ ap (λ x. uart_match_port x q) (sym same)
          ∙ m in
        ground (arith, seen, never) in
    record {
      indexed = λ j p a. elim (place j p a) [
        | inl (e, same) ↦ ap (λ q. q.index) same ∙ e
        | inr b ↦ g.indexed j p b
      ];
      distinct = λ j k p q a b s.
          let m = SamePort-match p q s in
          elim (place j p a) [
            | inl (e, same) ↦ elim (place k q b) [
              | inl (f, same') ↦ sym e ∙ f
              | inr y ↦ absurd (clash p q same (alone k q y.found) m)
            ]
            | inr x ↦ elim (place k q b) [
              | inl (f, same') ↦ absurd (clash q p same' (alone j p x.found) (match-sym q p ∙ m))
              | inr y ↦ g.distinct j k p q x y s
            ]
          ];
    }

-- Two ports are one if both have the I/O type 0 and equal port numbers of 16 bits, or the I/O type 1 and
-- equal addresses. Ports that are in use have the indices of their entries, and no two of them are one;
-- registering another port keeps this. It fails without a clock (`-EINVAL`), where the port of an
-- entry, in use or not, is that port (`-EEXIST`), or where all entries are in use (`-ENOSPC`), and then
-- changes nothing; and else, with a clock and a port that no entry has, the port is in an entry that
-- was not in use, with its index, and no other entry is changed.
pub register_uart_port-Good :
    (up : UartPort) (ports : List UartPort)
    → Good ports
    → Good (register_uart_port up ports).1 × Outcome up ports (register_uart_port up ports)
unfolding register_uart_port
register_uart_port-Good up ports g = elim (Bool-cases (up.uart_clock == 0)) [
  | inl e ↦ rw e (g, no_clock (ground (arith, e)) refl)
  | inr clock ↦ elim (Bool-cases (find_match_port up ports)) [
    | inl e ↦
        let (i, p, f, m) = find_match_port-found up ports e in
        rw (clock, e) (g, exists i p f (match-SamePort p up m) refl)
    | inr e ↦ elim (Option-cases (first_unknown ports 0)) [
      | inl none_left ↦
          rw (clock, e, none_left) (g, no_room (first_unknown-none ports 0 none_left) refl)
      | inr (k, at_k) ↦
          let (i, k_is, old, f, unknown) = first_unknown-some ports 0 k at_k in
          let same : k ≡ i = omega (arith, k_is) in
          let there : get_elem? ports k ≡ some old = ap (get_elem? ports) same ∙ f in
          rw (clock, e, at_k)
            (
              set-Good ports k up old g there (find_match_port-missing up ports e),
              registered k (ground (arith, clock))
                  (λ j p h. differ p up (find_match_port-missing up ports e j p h)) refl
                  (get_elem?-set ports k old (record up { index = k }) there)
                  (λ p h. ap (λ x. x.type) (same_port p old (sym h ∙ there)) ∙ unknown)
                  (λ j ne. get_elem?-set_ne ports k j (record up { index = k }) ne),
            )
    ]
  ]
]
