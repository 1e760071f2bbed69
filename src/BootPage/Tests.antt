-- ===== src/BootPage/Tests.antt =====
-- A mapping at a concrete state.
use chypervisor.Prelude.{
  ℕ, ◌+◌, ◌*◌, ◌%◌, ◌^◌, ◌<◌, ◌≡◌, refl, arith, Option, none, some, ◌==◌, ltb, if◌then◌else◌,
}
use chypervisor.Prelude.{inl, if_all, ap}
use chypervisor.BootPage.{
  BootServices, Loader, clear_entry, page_rx, page_map4k_to, alloc_new_table,
}
use chypervisor.BootPage.Levels.{Laws, IsLevelled}
use chypervisor.BootPage.Walk.{IsMapped}
use chypervisor.BootPage.Map.{page_map4k_to-IsMapped}

-- Boot services that count the pages that they have handed out, from the bottom of memory.
abbrev counting : BootServices
counting = record {
  State = ℕ;
  allocate_page = λ (n : ℕ). if ltb n (2 ^ 50) then (some (n * 4096), n + 1) else (none, n);
}

abbrev Below : ℕ → ℕ → Type 0
Below n p = p < n * 4096

none_or_some : (q : ℕ) → ¬ (none ≡ some q)
none_or_some q e = ground (arith, e)

abbrev number_of : Option ℕ → ℕ
number_of none = 2 ^ 63
number_of (some q) = q

counting-Laws : Laws counting Below
counting-Laws = record {
  keeps = λ n p h.
      if_all (λ (r : Option ℕ × ℕ). Below r.1 p) (ltb n (2 ^ 50)) (some (n * 4096), n + 1) (none, n)
        (λ room. omega (arith, h)) (λ full. h);
  new_page = λ n q e.
      if_all
        (λ (r : Option ℕ × ℕ).
          r.0 ≡ some q → (¬ Below n q) × Below r.1 q × (q % 4096 ≡ 0) × (q < 2 ^ 63))
        (ltb n (2 ^ 50)) (some (n * 4096), n + 1) (none, n)
        (λ room given.
          let here : n * 4096 ≡ q = ap number_of given in
          let small : n < 2 ^ 50 = ground (arith, room) in
          (
            λ below. omega (arith, here, below),
            omega (arith, here),
            omega (arith, here),
            omega (arith, here, small),
          ))
        (λ full given. absurd (none_or_some q given)) e;
}

abbrev empty : Loader counting
empty = record { mem = λ p i. clear_entry; services = 2; cr3 = 0x1000 }

abbrev only_top : ℕ → ℕ
only_top p = if p == 0x1000 then 3 else 9

empty-IsLevelled : IsLevelled counting-Laws only_top empty
empty-IsLevelled = record { used = λ p h. ground arith; down = λ p i n at low. inl refl }

page_map4k_to-IsMapped_example :
    IsMapped counting 0xFFFFFFFF80100000 0x200000 page_rx
      (page_map4k_to counting 0xFFFFFFFF80100000 0x200000 page_rx empty).1
unfolding page_map4k_to alloc_new_table
page_map4k_to-IsMapped_example =
    page_map4k_to-IsMapped counting-Laws 0xFFFFFFFF80100000 0x200000 page_rx only_top empty
      empty-IsLevelled refl (omega arith) refl
