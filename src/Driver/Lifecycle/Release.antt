-- ===== src/Driver/Lifecycle/Release.antt =====
-- What a probe leaves acquired.
use snd_hdspe.Common.{
  ℕ, ◌≡◌, ◌==◌, refl, ap, sym, ◌∙◌, Bool, true, false, not, ◌&&◌, ◌⊎◌, inl, inr, Bool-cases,
  if◌then◌else◌, Option, some,
}
use mathlib.Core.Bool.{false≢true}
use snd_hdspe.Common.Int.{ℤ, pos, negsuc, is_negative}
use snd_hdspe.Driver.{Reg, Hardware, stop_interrupts}
use snd_hdspe.Driver.Lifecycle.{
  Held, nothing_held, Card, Calls, init_all, request_irq, ioremap, request_regions, is_zero,
  set_dma_mask, enable_device, create, with_mapping, work_stop, deinit_all, free_irq,
  unmap_and_disable, then_free, free, started, freed, probe,
}

-- The driver's data as the kernel has allocated it.
unfoldable pub new_card : Hardware → Reg → ℕ → Option ℕ → Card
new_card h r midi_mask tco_ie = record {
  irq = pos 0;
  port = 0;
  iobase = false;
  hardware = h;
  saved_registers = r;
  midi_mask = midi_mask;
  tco_ie = tco_ie;
  held = nothing_held;
}

-- After a failure nothing is held; after success all is, the TCO's memory where there is a TCO and
-- memory for it.
pub Ends : Calls → Card × ℤ → Type 0
Ends k (c, err) =
    ((is_negative err ≡ true) × (c.held ≡ nothing_held))
    ⊎ ((is_negative err ≡ false)
        × (c.held ≡ record {
          enabled = true;
          regions = true;
          mapped = true;
          interrupt = true;
          mixer = true;
          tco = k.has_tco && k.tco_memory;
        }))

full : Bool → Held
full tco = record {
  enabled = true;
  regions = true;
  mapped = true;
  interrupt = true;
  mixer = true;
  tco = tco;
}

-- A card from the create: freeing it releases all, and without an error all is held.
record Created (tco : Bool) (o : Card × ℤ) : Type 0 where
  rest : Card
  frees : free o.0 ≡ some rest
  nothing : rest.held ≡ nothing_held
  all : (is_negative o.1 ≡ true) ⊎ ((is_negative o.1 ≡ false) × (o.0.held ≡ full tco))

-- A card with its mapping, whose number of the interrupt says whether it is requested.
record Based (c : Card) : Type 0 where
  based : (c.port == 0) ≡ false
  mapped : c.iobase ≡ true
  interrupt :
      ((is_negative c.irq ≡ true) × (c.held.interrupt ≡ false))
      ⊎ ((is_negative c.irq ≡ false) × (c.held.interrupt ≡ true))

unmap_and_disable-held :
    (c : Card)
    → (c.port == 0) ≡ false
    → c.iobase ≡ true
    → (unmap_and_disable c).held
      ≡ record (c.held) { enabled = false; regions = false; mapped = false }
unfolding unmap_and_disable
unmap_and_disable-held c based mapped = rw (based, mapped) refl

pub work_stop_lem :
    (c : Card)
    → (c.port == 0) ≡ false
    → c.iobase ≡ true
    → work_stop c ≡ some (record c { hardware = stop_interrupts c.midi_mask c.hardware })
unfolding work_stop with_mapping
work_stop_lem c based mapped = rw (based, mapped) refl

pub deinit_all_lem :
    (c : Card)
    → (c.port == 0) ≡ false
    → deinit_all c ≡ record c { held = record (c.held) { mixer = false; tco = false } }
unfolding deinit_all
deinit_all_lem c based = rw based refl

free_irq_lem :
    (c : Card)
    → Based c
    → free_irq c ≡ some (record c { held = record (c.held) { interrupt = false } })
unfolding free_irq
free_irq_lem c q = elim (q.interrupt) [
  | inl (none_yet, not_held) ↦
      rw none_yet (ap (λ b. some (record c { held = record (c.held) { interrupt = b } })) not_held)
  | inr (number, held) ↦ rw (number, held) refl
]

-- A card with its mapping is freed.
free_lem : (c : Card) → Based c → (rest : Card) × (free c ≡ some rest) × (rest.held ≡ nothing_held)
unfolding free then_free
free_lem c q =
    let d : Card = record c { hardware = stop_interrupts c.midi_mask c.hardware } in
    let e : Card = record d { held = record (d.held) { mixer = false; tco = false } } in
    let f : Card = record e { held = record (e.held) { interrupt = false } } in
    (
      unmap_and_disable f,
      rw (work_stop_lem c q.based q.mapped) (
          rw (deinit_all_lem d q.based) (
            rw
              (free_irq_lem e
                (record { based = q.based; mapped = q.mapped; interrupt = q.interrupt }))
              refl)),
      unmap_and_disable-held f q.based q.mapped,
    )

Created-Based :
    (tco : Bool) (c : Card) (err : ℤ)
    → Based c
    → (is_negative err ≡ true) ⊎ ((is_negative err ≡ false) × (c.held ≡ full tco))
    → Created tco (c, err)
Created-Based tco c err q all =
    let (rest, frees, nothing) = free_lem c q in
    record { rest = rest; frees = frees; nothing = nothing; all = all }

Created-if :
    (tco b : Bool) (x y : Card × ℤ)
    → (b ≡ true → Created tco x)
    → (b ≡ false → Created tco y)
    → Created tco (if b then x else y)
Created-if tco true x y on off = on refl
Created-if tco false x y on off = off refl

-- A card whose regions are not requested is freed.
Created-early :
    (tco enabled : Bool) (c : Card) (err : ℤ)
    → is_negative err ≡ true
    → Created tco (
      record c {
        irq = negsuc 0;
        port = 0;
        iobase = false;
        held = record nothing_held { enabled = enabled };
      },
      err,
    )
unfolding free then_free work_stop deinit_all free_irq unmap_and_disable is_negative
Created-early tco enabled c err negative = record {
  rest = _;
  frees = refl;
  nothing = refl;
  all = inl negative;
}

-- A card that holds all but the mixer and the TCO.
record Requested (c : Card) : Type 0 where
  based : (c.port == 0) ≡ false
  mapped : c.iobase ≡ true
  irq : is_negative c.irq ≡ false
  held :
      c.held
      ≡ record nothing_held { enabled = true; regions = true; mapped = true; interrupt = true }

init_all-Created :
    (k : Calls) (c : Card) → Requested c → Created (k.has_tco && k.tco_memory) (init_all k c)
unfolding init_all full is_negative
init_all-Created k c q =
    Created-if _ (not k.mixer_memory) _ _
      (λ no_memory. Created-Based _ c (negsuc 11) based (inl refl))
      (λ memory.
        Created-if _ (is_negative k.create_alsa_devices) _ _
          (λ failed. Created-Based _ _ k.create_alsa_devices (with_memory _) (inl failed))
          (λ made. Created-Based _ _ (pos 0) (with_memory _) (
            inr (
              refl,
              ap (λ (h : Held). record h { mixer = true; tco = k.has_tco && k.tco_memory }) q.held,
            ))))
  where
    based : Based c
    based = record {
      based = q.based;
      mapped = q.mapped;
      interrupt = inr (q.irq, ap (λ h. h.interrupt) q.held);
    }

    with_memory :
        (tco : Bool) → Based (record c { held = record (c.held) { mixer = true; tco = tco } })
    with_memory tco = record {
      based = q.based;
      mapped = q.mapped;
      interrupt = inr (q.irq, ap (λ h. h.interrupt) q.held);
    }

-- Where the mapping succeeds and the regions have an address.
create-Created :
    (k : Calls) (h : Hardware) (r : Reg) (midi_mask : ℕ) (tco_ie : Option ℕ)
    → k.ioremap ≡ true
    → (k.resource_start == 0) ≡ false
    → Created (k.has_tco && k.tco_memory) (create k (new_card h r midi_mask tco_ie))
unfolding create enable_device set_dma_mask request_regions ioremap request_irq new_card is_negative
create-Created k h r midi_mask tco_ie mapped based =
    Created-if _ k.known_model _ _
      (λ known.
        Created-if _ (is_negative k.enable_device) _ _
          (λ failed. Created-early _ _ (new_card h r midi_mask tco_ie) k.enable_device failed)
          (λ enabled.
            Created-if _ (is_zero k.set_dma_mask) _ _
              (λ zero.
                Created-if _ (is_negative k.request_regions) _ _
                  (λ busy. Created-early _ _ (new_card h r midi_mask tco_ie) k.request_regions busy)
                  (λ regions.
                    Created-if _ k.ioremap _ _
                      (λ is_mapped.
                        Created-if _ k.request_irq _ _
                          (λ requested.
                            init_all-Created k _
                              (record { based = based; mapped = refl; irq = refl; held = refl }))
                          (λ busy.
                            Created-Based _ _ (negsuc 15)
                              (record {
                                based = based;
                                mapped = refl;
                                interrupt = inl (refl, refl);
                              })
                              (inl refl)))
                      (λ not_mapped. absurd (false≢true (sym not_mapped ∙ mapped)))))
              (λ not_zero. Created-early _ _ (new_card h r midi_mask tco_ie) (negsuc 18) refl)))
      (λ unknown. Created-early _ _ (new_card h r midi_mask tco_ie) (negsuc 18) refl)

Created-probe :
    (k : Calls) (c : Card)
    → Created (k.has_tco && k.tco_memory) (create k c)
    → (o : Card × ℤ) × (probe k c ≡ some o) × Ends k o
unfolding probe freed started Ends full is_negative
Created-probe k c q = elim (q.all) [
  | inl negative ↦ rw (q.frees, negative) (_, refl, inl (negative, q.nothing))
  | inr (created, all) ↦ elim (Bool-cases (is_negative k.card_register)) [
    | inl failed ↦
        rw (q.frees, created, failed) ((q.rest, k.card_register), refl, inl (failed, q.nothing))
    | inr registered ↦ rw (q.frees, created, registered) (_, refl, inr (refl, all))
  ]
]

-- Where the mapping succeeds and the regions have an address: whatever else fails, the probe has a
-- result; with an error nothing that it acquired is still held, and without one all is held, the
-- TCO's memory where there is a TCO and memory for it.
pub probe_lem :
    (k : Calls) (h : Hardware) (r : Reg) (midi_mask : ℕ) (tco_ie : Option ℕ)
    → k.ioremap ≡ true
    → (k.resource_start == 0) ≡ false
    → (o : Card × ℤ) × (probe k (new_card h r midi_mask tco_ie) ≡ some o) × Ends k o
probe_lem k h r midi_mask tco_ie mapped based =
    Created-probe k _ (create-Created k h r midi_mask tco_ie mapped based)
