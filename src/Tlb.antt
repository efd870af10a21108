-- ===== src/Tlb.antt =====
-- mem.cpp: the translation cache of a hart, a hash table with one entry in a slot.
pub mod Count
use rv_emu.Base.{
  ℕ, zero, suc, ◌+◌, ◌-◌, ◌*◌, ◌/◌, ◌%◌, ◌^◌, Bool, true, false, not, List, [], ◌∷◌, u8, u16, u64,
  get_or, set, replicate, ltb, ◌==◌, if◌then◌else◌,
}
use rv_emu.Hart.{TlbEntry, TlbStruct}

abbrev pub tlb_size : ℕ
tlb_size = 64

abbrev pub no_tlb_entry : TlbEntry
no_tlb_entry = record {
  virt_page = 0;
  phy_page = 0;
  pte_addr = 0;
  size = 0;
  permissions = 0;
  user = false;
}

-- `memset(tlb, 0, sizeof(TLBStruct))`.
unfoldable pub tlb_clear : TlbStruct
tlb_clear = record {
  max_entry_size = 0;
  size_count = replicate 6 0;
  tlb_entries = replicate tlb_size no_tlb_entry;
}

unfoldable pub tlb_hash : ℕ → ℕ
tlb_hash addr = u16 (u64 (106039 * addr) / 2 ^ 16 % tlb_size)

-- The loop over the sizes: the largest size from `i` on that is in use, or what was found before.
unfoldable pub max_size_loop : List ℕ → ℕ → ℕ → ℕ
max_size_loop [] i found = found
max_size_loop (c ∷ cs) i found = max_size_loop cs (i + 1) (if ltb 0 c then i else found)

-- The counts once the old entry is gone and the new one is there.
unfoldable pub recount : List ℕ → TlbEntry → TlbEntry → List ℕ
recount counts old_entry tlb_entry =
    let less =
      if not (old_entry.permissions == 0)
      then set counts old_entry.size (u8 (get_or counts old_entry.size 0 + 255))
      else counts in
    set less tlb_entry.size (u8 (get_or less tlb_entry.size 0 + 1))

unfoldable pub tlb_add : TlbStruct → TlbEntry → TlbStruct
unfolding recount max_size_loop tlb_hash
tlb_add tlb tlb_entry =
    let index = tlb_hash tlb_entry.virt_page in
    let counts = recount tlb.size_count (get_or tlb.tlb_entries index no_tlb_entry) tlb_entry in
    record {
      max_entry_size = max_size_loop counts 0 0;
      size_count = counts;
      tlb_entries = set tlb.tlb_entries index tlb_entry;
    }
