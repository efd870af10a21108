-- ===== src/Memory/Frame.antt =====
-- What an access of mem.ipp and mem.cpp leaves of the hart that makes it.
pub mod Walks
use rv_emu.Base.{
  ℕ, zero, suc, ◌+◌, ◌*◌, ◌^◌, ◌<◌, ◌≤◌, ◌≡◌, refl, Bool, true, false, not, ◌&&◌, if◌then◌else◌,
  field, u64, ◌^◌, ◌≢◌, Option, none, some, arith, Option-cases, inl, inr, ◌∙◌, subst, Bool-cases,
  List, ◌==◌,
}
use rv_emu.Hart.{HartState, Csrs, Pmp, TlbEntry, TlbStruct}
use rv_emu.Tlb.{tlb_add}
use rv_emu.Tlb.Count.{IsCounted, tlb_add-IsCounted}
use rv_emu.Memory.{
  Board, Run, World, M, pure, gets, modify, ◌>>=◌, ◌>>◌, device_fetch, device_store, dispatch_r,
  dispatch_w, handler_r, handler_w, unmapped_fetch, phy_mem_fetch, phy_mem_store, fetch_entry,
  store_entry, mem_entries,
}
use rv_emu.Memory.Access.{set_status, mem_fetch, mem_store}
use rv_emu.Memory.Walk.{
  finish_walk, walk_leaf, walk_loop, page_table_walk, use_entry, find_loop, tlb_find, translate,
  fetch_at, store_at, fetch_translated, store_translated, virt_mem_fetch, virt_mem_store,
  leaf_entry, is_pointer, in_mpp, mprv, page_faulted, cache, touched, pte_invalid, next_table,
  page_bits, layers, needs_write,
}
use rv_emu.Memory.Keeps.{
  Holds, Keeps, Keeps-pure, Keeps-undefined, Keeps-gets, Keeps-get_world, Keeps-modify,
  Keeps-set_world, Keeps-if, Keeps-bind, keeps_rules,
}

-- But for the two fault flags, the cache, which stays well formed, and `mip`, all of the
-- hart is as before.
pub record Frame (old new : HartState) : Type 0 where
  pub same_hartid : new.hartid ≡ old.hartid
  pub same_regs : new.regs ≡ old.regs
  pub same_pc : new.pc ≡ old.pc
  pub same_inst : new.inst ≡ old.inst
  pub same_instbuf : new.instbuf ≡ old.instbuf
  pub same_inst_len : new.inst_len ≡ old.inst_len
  pub same_privmode : new.privmode ≡ old.privmode
  pub same_pmp : new.pmp ≡ old.pmp
  pub same_chk_int : new.chk_int ≡ old.chk_int
  pub same_csrs : new.csrs ≡ record old.csrs { mip = new.mip }
  pub keeps_tlb : IsCounted old.tlb → IsCounted new.tlb

pub Frame-refl : (hs : HartState) → Frame hs hs
Frame-refl hs = record {
  same_hartid = refl;
  same_regs = refl;
  same_pc = refl;
  same_inst = refl;
  same_instbuf = refl;
  same_inst_len = refl;
  same_privmode = refl;
  same_pmp = refl;
  same_chk_int = refl;
  same_csrs = refl;
  keeps_tlb = λ c. c;
}

pub Frame-trans : (a b c : HartState) → Frame a b → Frame b c → Frame a c
Frame-trans a b c p q = record {
  same_hartid = q.same_hartid ∙ p.same_hartid;
  same_regs = q.same_regs ∙ p.same_regs;
  same_pc = q.same_pc ∙ p.same_pc;
  same_inst = q.same_inst ∙ p.same_inst;
  same_instbuf = q.same_instbuf ∙ p.same_instbuf;
  same_inst_len = q.same_inst_len ∙ p.same_inst_len;
  same_privmode = q.same_privmode ∙ p.same_privmode;
  same_pmp = q.same_pmp ∙ p.same_pmp;
  same_chk_int = q.same_chk_int ∙ p.same_chk_int;
  same_csrs = ground (arith, p.same_csrs, q.same_csrs);
  keeps_tlb = λ i. q.keeps_tlb (p.keeps_tlb i);
}

-- The fields that an access may change.
pub Frame-update :
    (hs : HartState) (status fault : Bool) (tlb : TlbStruct)
    → (IsCounted hs.tlb → IsCounted tlb)
    → Frame hs (record hs { mem_status = status; page_fault = fault; tlb = tlb })
Frame-update hs status fault tlb k = record {
  same_hartid = refl;
  same_regs = refl;
  same_pc = refl;
  same_inst = refl;
  same_instbuf = refl;
  same_inst_len = refl;
  same_privmode = refl;
  same_pmp = refl;
  same_chk_int = refl;
  same_csrs = refl;
  keeps_tlb = k;
}

-- A detour through another mode.
pub Frame-detour :
    (a b : HartState) (mode : ℕ)
    → Frame (record a { privmode = mode }) b
    → Frame a (record b { privmode = a.privmode })
Frame-detour a b mode f = record {
  same_hartid = f.same_hartid;
  same_regs = f.same_regs;
  same_pc = f.same_pc;
  same_inst = f.same_inst;
  same_instbuf = f.same_instbuf;
  same_inst_len = f.same_inst_len;
  same_privmode = refl;
  same_pmp = f.same_pmp;
  same_chk_int = f.same_chk_int;
  same_csrs = f.same_csrs;
  keeps_tlb = f.keeps_tlb;
}

-- The handlers of the devices reach no more of the hart than `mip`.
abbrev pub MipOnly : HartState → HartState → Type 0
MipOnly old new = (mip : ℕ) × (new ≡ record old { csrs = record old.csrs { mip = mip } })

pub record IsBoard {D : Type 0} (B : Board D) : Type 0 where
  pub reads :
      (i offset len v : ℕ) (hs hs' : HartState) (d d' : D)
      → B.device_r i offset len hs d ≡ some (v, hs', d')
      → MipOnly hs hs'
  pub writes :
      (i offset len v : ℕ) (hs hs' : HartState) (d d' : D)
      → B.device_w i offset len v hs d ≡ some (hs', d')
      → MipOnly hs hs'

MipOnly-Frame : (old new : HartState) → MipOnly old new → Frame old new
MipOnly-Frame old new e = rw (e.1) (record {
  same_hartid = refl;
  same_regs = refl;
  same_pc = refl;
  same_inst = refl;
  same_instbuf = refl;
  same_inst_len = refl;
  same_privmode = refl;
  same_pmp = refl;
  same_chk_int = refl;
  same_csrs = refl;
  keeps_tlb = λ c. c;
})

module _ {D : Type 0} (B : Board D) (board : IsBoard B) (h0 : HartState) where
  -- The hart is still as at the start but for what an access may change.
  abbrev pub Framed : Run D → Type 0
  Framed r = Frame h0 r.hs

  device_fetch-Framed : (i offset len : ℕ) → Keeps Framed (device_fetch B i offset len)
  unfolding device_fetch
  device_fetch-Framed i offset len = record {
    at = λ r h. elim (Option-cases (B.device_r i offset len r.hs r.world.devices)) [
      | inl e ↦ rw (e, Holds) tt
      | inr ((v, hs', d'), e) ↦
          rw (e, Holds)
            (Frame-trans h0 r.hs hs' h
              (MipOnly-Frame r.hs hs' (board.reads i offset len v r.hs hs' r.world.devices d' e)))
    ];
  }

  device_store-Framed : (i offset len v : ℕ) → Keeps Framed (device_store B i offset len v)
  unfolding device_store
  device_store-Framed i offset len v = record {
    at = λ r h. elim (Option-cases (B.device_w i offset len v r.hs r.world.devices)) [
      | inl e ↦ rw (e, Holds) tt
      | inr ((hs', d'), e) ↦
          rw (e, Holds)
            (Frame-trans h0 r.hs hs' h
              (MipOnly-Frame r.hs hs' (board.writes i offset len v r.hs hs' r.world.devices d' e)))
    ];
  }

  pub modify-Framed :
      (f : HartState → HartState) → ((hs : HartState) → Frame hs (f hs)) → Keeps Framed (modify f)
  modify-Framed f k = Keeps-modify f (λ r h. Frame-trans h0 r.hs (f r.hs) h (k r.hs))

  pub set_status-Framed : (b : Bool) → Keeps Framed (set_status b)
  unfolding set_status
  set_status-Framed b = modify-Framed _ (λ hs. Frame-update hs b hs.page_fault hs.tlb (λ c. c))

  unmapped_fetch-Framed : (len addr : ℕ) → Keeps Framed (unmapped_fetch B len addr)
  unfolding unmapped_fetch
  unmapped_fetch-Framed len addr = search keeps_rules

  dispatch_r-Framed : (len addr : ℕ) (o : Option (ℕ × ℕ)) → Keeps Framed (dispatch_r B len addr o)
  unfolding dispatch_r handler_r
  dispatch_r-Framed len addr (some (i, offset)) = search (keeps_rules, device_fetch-Framed)
  dispatch_r-Framed len addr none = unmapped_fetch-Framed len addr

  dispatch_w-Framed : (len v : ℕ) (o : Option (ℕ × ℕ)) → Keeps Framed (dispatch_w B len v o)
  unfolding dispatch_w handler_w
  dispatch_w-Framed len v (some (i, offset)) = search (keeps_rules, device_store-Framed)
  dispatch_w-Framed len v none = search keeps_rules

  phy_mem_fetch-Framed : (len addr : ℕ) → Keeps Framed (phy_mem_fetch B len addr)
  unfolding phy_mem_fetch
  phy_mem_fetch-Framed len addr = search (keeps_rules, dispatch_r-Framed)

  phy_mem_store-Framed : (len addr v : ℕ) → Keeps Framed (phy_mem_store B len addr v)
  unfolding phy_mem_store
  phy_mem_store-Framed len addr v = search (keeps_rules, dispatch_w-Framed)

  pub mem_fetch-Framed : (len addr : ℕ) → Keeps Framed (mem_fetch B len addr)
  unfolding mem_fetch
  mem_fetch-Framed len addr = search (keeps_rules, set_status-Framed, phy_mem_fetch-Framed)

  pub mem_store-Framed : (len addr v : ℕ) → Keeps Framed (mem_store B len addr v)
  unfolding mem_store
  mem_store-Framed len addr v = search (keeps_rules, set_status-Framed, phy_mem_store-Framed)
