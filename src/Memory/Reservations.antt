-- ===== src/Memory/Reservations.antt =====
-- mem.ipp and mem.cpp: accesses and walks leave `reservations` as they are. A property of them is a
-- predicate `Q` here.
use rv_emu.Base.{ℕ, zero, suc, List, Option, none, some, Bool, inl, inr, Option-cases}
use rv_emu.Hart.{HartState, TlbEntry}
use rv_emu.Memory.{
  Board, Run, M, gets, modify, device_fetch, device_store, dispatch_r, dispatch_w, handler_r,
  handler_w, unmapped_fetch, phy_mem_fetch, phy_mem_store,
}
use rv_emu.Memory.Access.{set_status, mem_fetch, mem_store}
use rv_emu.Memory.Walk.{
  finish_walk, walk_leaf, walk_loop, page_table_walk, use_entry, find_loop, tlb_find, translate,
  fetch_at, store_at, fetch_translated, store_translated, virt_mem_fetch, virt_mem_store, in_mpp,
  page_faulted, cache,
}
use rv_emu.Memory.Keeps.{
  Holds, Keeps, Keeps-pure, Keeps-gets, Keeps-bind, Keeps-modify, keeps_rules,
}

module _ {D : Type 0} (B : Board D) (Q : List ℕ → Type 0) where
  abbrev pub Reserves : Run D → Type 0
  Reserves r = Q r.world.reservations

  pub modify-Reserves : (f : HartState → HartState) → Keeps Reserves (modify f)
  modify-Reserves f = Keeps-modify f (λ r h. h)

  device_fetch-Reserves : (i offset len : ℕ) → Keeps Reserves (device_fetch B i offset len)
  unfolding device_fetch
  device_fetch-Reserves i offset len = record {
    at = λ r h. elim (Option-cases (B.device_r i offset len r.hs r.world.devices)) [
      | inl e ↦ rw (e, Holds) tt
      | inr ((v, hs', d'), e) ↦ rw (e, Holds) h
    ];
  }

  device_store-Reserves : (i offset len v : ℕ) → Keeps Reserves (device_store B i offset len v)
  unfolding device_store
  device_store-Reserves i offset len v = record {
    at = λ r h. elim (Option-cases (B.device_w i offset len v r.hs r.world.devices)) [
      | inl e ↦ rw (e, Holds) tt
      | inr ((hs', d'), e) ↦ rw (e, Holds) h
    ];
  }

  handler_w-Reserves : (i offset len v : ℕ) → Keeps Reserves (handler_w B i offset len v)
  unfolding handler_w
  handler_w-Reserves i offset len v = search (keeps_rules, device_store-Reserves)

  dispatch_r-Reserves :
      (len addr : ℕ) (o : Option (ℕ × ℕ)) → Keeps Reserves (dispatch_r B len addr o)
  unfolding dispatch_r handler_r unmapped_fetch
  dispatch_r-Reserves len addr (some (i, offset)) = search (keeps_rules, device_fetch-Reserves)
  dispatch_r-Reserves len addr none = search keeps_rules

  dispatch_w-Reserves : (len v : ℕ) (o : Option (ℕ × ℕ)) → Keeps Reserves (dispatch_w B len v o)
  unfolding dispatch_w
  dispatch_w-Reserves len v (some (i, offset)) = handler_w-Reserves i offset len v
  dispatch_w-Reserves len v none = search keeps_rules

  phy_mem_fetch-Reserves : (len addr : ℕ) → Keeps Reserves (phy_mem_fetch B len addr)
  unfolding phy_mem_fetch
  phy_mem_fetch-Reserves len addr = search (keeps_rules, dispatch_r-Reserves)

  phy_mem_store-Reserves : (len addr v : ℕ) → Keeps Reserves (phy_mem_store B len addr v)
  unfolding phy_mem_store
  phy_mem_store-Reserves len addr v = search (keeps_rules, dispatch_w-Reserves)

  set_status-Reserves : (b : Bool) → Keeps Reserves (set_status b)
  unfolding set_status
  set_status-Reserves b = modify-Reserves _

  mem_fetch-Reserves : (len addr : ℕ) → Keeps Reserves (mem_fetch B len addr)
  unfolding mem_fetch
  mem_fetch-Reserves len addr = search (keeps_rules, set_status-Reserves, phy_mem_fetch-Reserves)

  mem_store-Reserves : (len addr v : ℕ) → Keeps Reserves (mem_store B len addr v)
  unfolding mem_store
  mem_store-Reserves len addr v = search (keeps_rules, set_status-Reserves, phy_mem_store-Reserves)

  page_faulted-Reserves : Keeps Reserves page_faulted
  unfolding page_faulted
  page_faulted-Reserves = search (keeps_rules, modify-Reserves)

  cache-Reserves : (entry : TlbEntry) → Keeps Reserves (cache B entry)
  unfolding cache
  cache-Reserves entry = modify-Reserves _

  finish_walk-Reserves :
      (virt_addr i pte_addr pte : ℕ) → Keeps Reserves (finish_walk B virt_addr i pte_addr pte)
  unfolding finish_walk
  finish_walk-Reserves virt_addr i pte_addr pte =
      search (keeps_rules, set_status-Reserves, cache-Reserves)

  walk_leaf-Reserves :
      (virt_addr : ℕ) (iswrite load : Bool) (i pte_addr pte : ℕ)
      → Keeps Reserves (walk_leaf B virt_addr iswrite load i pte_addr pte)
  unfolding walk_leaf
  walk_leaf-Reserves virt_addr iswrite load i pte_addr pte =
      search (keeps_rules, page_faulted-Reserves, finish_walk-Reserves, mem_store-Reserves) depth 14

  walk_loop-Reserves :
      (virt_addr : ℕ) (iswrite load : Bool) (left a : ℕ)
      → Keeps Reserves (walk_loop B virt_addr iswrite load left a)
  unfolding walk_loop
  walk_loop-Reserves virt_addr iswrite load zero a = page_faulted-Reserves
  walk_loop-Reserves virt_addr iswrite load (suc i) a =
      search
        (
          keeps_rules,
          set_status-Reserves,
          mem_fetch-Reserves,
          page_faulted-Reserves,
          walk_loop-Reserves virt_addr iswrite load i,
          walk_leaf-Reserves virt_addr iswrite load i,
        )
        depth 14

  pub page_table_walk-Reserves :
      (virt_addr : ℕ) (iswrite : Bool) → Keeps Reserves (page_table_walk B virt_addr iswrite)
  unfolding page_table_walk
  page_table_walk-Reserves virt_addr iswrite =
      search (keeps_rules, set_status-Reserves, walk_loop-Reserves) depth 12

  use_entry-Reserves :
      (virt_addr perms i : ℕ) (entry : TlbEntry)
      → Keeps Reserves (use_entry B virt_addr perms i entry)
  unfolding use_entry
  use_entry-Reserves virt_addr perms i entry =
      search (keeps_rules, set_status-Reserves, mem_fetch-Reserves, mem_store-Reserves) depth 12

  find_loop-Reserves :
      (virt_addr perms left : ℕ) → Keeps Reserves (find_loop B virt_addr perms left)
  unfolding find_loop
  find_loop-Reserves virt_addr perms zero = search keeps_rules
  find_loop-Reserves virt_addr perms (suc i) = Keeps-bind (gets _) _ (Keeps-gets _) (λ entry.
      Keeps-bind (gets _) _ (Keeps-gets _)
        (λ hit. search (keeps_rules, use_entry-Reserves, find_loop-Reserves virt_addr perms i)))

  tlb_find-Reserves : (virt_addr perms : ℕ) → Keeps Reserves (tlb_find B virt_addr perms)
  unfolding tlb_find
  tlb_find-Reserves virt_addr perms = search (keeps_rules, find_loop-Reserves)

  translate-Reserves :
      (virt_addr perms : ℕ) (iswrite : Bool) → Keeps Reserves (translate B virt_addr perms iswrite)
  unfolding translate
  translate-Reserves virt_addr perms iswrite =
      search (keeps_rules, set_status-Reserves, tlb_find-Reserves, page_table_walk-Reserves) depth
        14

  fetch_at-Reserves : (len : ℕ) (o : Option ℕ) → Keeps Reserves (fetch_at B len o)
  unfolding fetch_at
  fetch_at-Reserves len none = Keeps-pure 0
  fetch_at-Reserves len (some a) = mem_fetch-Reserves len a

  store_at-Reserves : (len v : ℕ) (o : Option ℕ) → Keeps Reserves (store_at B len v o)
  unfolding store_at
  store_at-Reserves len v none = Keeps-pure tt
  store_at-Reserves len v (some a) = mem_store-Reserves len a v

  fetch_translated-Reserves : (len addr : ℕ) → Keeps Reserves (fetch_translated B len addr)
  unfolding fetch_translated
  fetch_translated-Reserves len addr =
      search (keeps_rules, translate-Reserves, fetch_at-Reserves) depth 12

  store_translated-Reserves : (len addr v : ℕ) → Keeps Reserves (store_translated B len addr v)
  unfolding store_translated
  store_translated-Reserves len addr v =
      search (keeps_rules, translate-Reserves, store_at-Reserves) depth 12

  in_mpp-Reserves : {A : Type 0} (m : M D A) → Keeps Reserves m → Keeps Reserves (in_mpp B m)
  unfolding in_mpp
  in_mpp-Reserves m k = Keeps-bind _ _ (modify-Reserves _) (λ _.
      Keeps-bind _ _ k (λ output. Keeps-bind _ _ (modify-Reserves _) (λ _. Keeps-pure output)))

  pub virt_mem_fetch-Reserves : (len addr : ℕ) → Keeps Reserves (virt_mem_fetch B len addr)
  unfolding virt_mem_fetch
  virt_mem_fetch-Reserves len addr =
      search (keeps_rules, fetch_translated-Reserves, in_mpp-Reserves, mem_fetch-Reserves) depth 12

  pub virt_mem_store-Reserves : (len addr v : ℕ) → Keeps Reserves (virt_mem_store B len addr v)
  unfolding virt_mem_store
  virt_mem_store-Reserves len addr v =
      search (keeps_rules, store_translated-Reserves, in_mpp-Reserves, mem_store-Reserves) depth 12
