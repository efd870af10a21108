-- ===== src/Memory/Frame/Walks.antt =====
-- What the page-table walk, the cache and the accesses by virtual addresses leave of the hart, from
-- mem.cpp and mem.ipp.
use rv_emu.Base.{
  ℕ, zero, suc, ◌*◌, ◌^◌, ◌<◌, ◌≤◌, ◌≡◌, Bool, true, false, not, ◌&&◌, if◌then◌else◌, field, ◌^◌,
  ◌≢◌, Option, none, some, arith, inl, inr, ◌∙◌, subst, Bool-cases, ◌==◌,
}
use rv_emu.Hart.{HartState, TlbEntry}
use rv_emu.Tlb.{tlb_add}
use rv_emu.Tlb.Count.{tlb_add-IsCounted}
use rv_emu.Memory.{Board, Run, M, pure, gets, modify, ◌>>=◌}
use rv_emu.Memory.Access.{mem_fetch, mem_store}
use rv_emu.Memory.Walk.{
  finish_walk, walk_leaf, walk_loop, page_table_walk, use_entry, find_loop, tlb_find, translate,
  fetch_at, store_at, fetch_translated, store_translated, virt_mem_fetch, virt_mem_store,
  leaf_entry, is_pointer, in_mpp, mprv, page_faulted, cache, touched, layers, needs_write,
}
use rv_emu.Memory.Keeps.{Holds, Keeps, Keeps-pure, Keeps-gets, Keeps-if, Keeps-bind, keeps_rules}
use rv_emu.Memory.Frame.{
  Frame, Frame-refl, Frame-trans, Frame-update, Frame-detour, IsBoard, Framed, modify-Framed,
  set_status-Framed, mem_fetch-Framed, mem_store-Framed,
}

touched-is_pointer : (iswrite : Bool) (pte : ℕ) → is_pointer (touched iswrite pte) ≡ is_pointer pte
unfolding is_pointer touched
touched-is_pointer iswrite pte =
    let same : field (touched iswrite pte) 1 3 ≡ field pte 1 3 = ground arith in rw same

layers-le : (satp : ℕ) → layers satp ≤ 6
layers-le satp = ground arith

-- The end of an access in the mode MPP.
back_to_machine :
    {D A : Type 0} (h0 hs : HartState) (mode : ℕ) (o : Option (A × Run D))
    → Frame h0 hs
    → hs.privmode ≡ 3
    → Holds (λ r. Frame (record hs { privmode = mode }) r.hs) o
    → Holds
        (λ r. Frame h0 r.hs)
        (elim o [
          | none ↦ none
          | some (a, r) ↦ some (a, record r { hs = record r.hs { privmode = 3 } })
        ])
back_to_machine h0 hs mode none f m h = tt
back_to_machine h0 hs mode (some (a, r)) f m h =
    Frame-trans h0 hs _ f
      (subst (λ p. Frame hs (record r.hs { privmode = p })) m (Frame-detour hs r.hs mode h))

module _ {D : Type 0} (B : Board D) (board : IsBoard B) (h0 : HartState) where
  page_faulted-Framed : Keeps (Framed B board h0) page_faulted
  unfolding page_faulted
  page_faulted-Framed =
      let fault =
        modify-Framed B board h0 _ (λ hs. Frame-update hs hs.mem_status true hs.tlb (λ c. c)) in
      search (keeps_rules, fault)

  cache-Framed :
      (entry : TlbEntry)
      → entry.size < 6
      → entry.permissions ≢ 0
      → Keeps (Framed B board h0) (cache B entry)
  unfolding cache
  cache-Framed entry small used = modify-Framed B board h0 _ (λ hs.
      Frame-update hs hs.mem_status hs.page_fault (tlb_add hs.tlb entry)
        (λ c. tlb_add-IsCounted hs.tlb entry c small used))

  finish_walk-Framed :
      (virt_addr i pte_addr pte : ℕ)
      → i < 6
      → is_pointer pte ≡ false
      → Keeps (Framed B board h0) (finish_walk B virt_addr i pte_addr pte)
  unfolding finish_walk is_pointer leaf_entry
  finish_walk-Framed virt_addr i pte_addr pte small leaf =
      let used : field pte 1 3 ≢ 0 = λ e. ground arith in
      let cached = cache-Framed (leaf_entry virt_addr i pte_addr pte) small used in
      Keeps-bind _ _ cached (λ _. search (keeps_rules, set_status-Framed B board h0))

  walk_leaf-Framed :
      (virt_addr : ℕ) (iswrite load : Bool) (i pte_addr pte : ℕ)
      → i < 6
      → is_pointer pte ≡ false
      → Keeps (Framed B board h0) (walk_leaf B virt_addr iswrite load i pte_addr pte)
  unfolding walk_leaf
  walk_leaf-Framed virt_addr iswrite load i pte_addr pte small leaf =
      let still = touched-is_pointer iswrite pte ∙ leaf in
      let finish = finish_walk-Framed virt_addr i pte_addr pte small leaf in
      let finish_touched =
        finish_walk-Framed virt_addr i pte_addr (touched iswrite pte) small still in
      Keeps-bind (gets _) _ (Keeps-gets _) (λ denied.
        Keeps-if denied _ _ (λ _. page_faulted-Framed)
          (λ _.
            Keeps-if (not (needs_write pte)) _ _ (λ _. finish)
              (λ _.
                Keeps-bind _ _ (mem_store-Framed B board h0 8 pte_addr (touched iswrite pte)) (λ _.
                  Keeps-bind (gets _) _ (Keeps-gets _)
                    (λ fault. Keeps-if fault _ _ (λ _. Keeps-pure 0) (λ _. finish_touched))))))

  walk_loop-Framed :
      (virt_addr : ℕ) (iswrite load : Bool) (left a : ℕ)
      → left ≤ 6
      → Keeps (Framed B board h0) (walk_loop B virt_addr iswrite load left a)
  unfolding walk_loop
  walk_loop-Framed virt_addr iswrite load zero a few = page_faulted-Framed
  walk_loop-Framed virt_addr iswrite load (suc i) a few =
      search
        (
          keeps_rules,
          set_status-Framed B board h0,
          mem_fetch-Framed B board h0,
          page_faulted-Framed,
          λ (n : ℕ). walk_loop-Framed virt_addr iswrite load i n (omega arith),
          λ (n pte : ℕ). walk_leaf-Framed virt_addr iswrite load i n pte (omega arith),
        )
        depth 14

  use_entry-Framed :
      (virt_addr perms i : ℕ) (entry : TlbEntry)
      → Keeps (Framed B board h0) (use_entry B virt_addr perms i entry)
  unfolding use_entry
  use_entry-Framed virt_addr perms i entry =
      search
        (
          keeps_rules,
          set_status-Framed B board h0,
          mem_fetch-Framed B board h0,
          mem_store-Framed B board h0,
        )
        depth 12

  find_loop-Framed :
      (virt_addr perms left : ℕ) → Keeps (Framed B board h0) (find_loop B virt_addr perms left)
  unfolding find_loop
  find_loop-Framed virt_addr perms zero = search keeps_rules
  find_loop-Framed virt_addr perms (suc i) = Keeps-bind (gets _) _ (Keeps-gets _) (λ entry.
      Keeps-bind (gets _) _ (Keeps-gets _)
        (λ hit. search (keeps_rules, use_entry-Framed, find_loop-Framed virt_addr perms i)))

  pub page_table_walk-Framed :
      (virt_addr : ℕ) (iswrite : Bool)
      → Keeps (Framed B board h0) (page_table_walk B virt_addr iswrite)
  unfolding page_table_walk
  page_table_walk-Framed virt_addr iswrite = Keeps-bind (gets _) _ (Keeps-gets _) (λ satp.
      Keeps-bind (gets _) _ (Keeps-gets _) (λ load.
        Keeps-if (layers satp == 0) _ _ (λ _. search (keeps_rules, set_status-Framed B board h0))
          (λ _.
            walk_loop-Framed virt_addr iswrite load (layers satp) (field satp 0 44 * 2 ^ 12)
              (layers-le satp))))

  tlb_find-Framed : (virt_addr perms : ℕ) → Keeps (Framed B board h0) (tlb_find B virt_addr perms)
  unfolding tlb_find
  tlb_find-Framed virt_addr perms = search (keeps_rules, find_loop-Framed)

  translate-Framed :
      (virt_addr perms : ℕ) (iswrite : Bool)
      → Keeps (Framed B board h0) (translate B virt_addr perms iswrite)
  unfolding translate
  translate-Framed virt_addr perms iswrite =
      search (keeps_rules, set_status-Framed B board h0, tlb_find-Framed, page_table_walk-Framed)
        depth 14

  fetch_at-Framed : (len : ℕ) (o : Option ℕ) → Keeps (Framed B board h0) (fetch_at B len o)
  unfolding fetch_at
  fetch_at-Framed len none = Keeps-pure 0
  fetch_at-Framed len (some a) = mem_fetch-Framed B board h0 len a

  store_at-Framed : (len v : ℕ) (o : Option ℕ) → Keeps (Framed B board h0) (store_at B len v o)
  unfolding store_at
  store_at-Framed len v none = Keeps-pure tt
  store_at-Framed len v (some a) = mem_store-Framed B board h0 len a v

  fetch_translated-Framed : (len addr : ℕ) → Keeps (Framed B board h0) (fetch_translated B len addr)
  unfolding fetch_translated
  fetch_translated-Framed len addr =
      search (keeps_rules, translate-Framed, fetch_at-Framed) depth 12

  store_translated-Framed :
      (len addr v : ℕ) → Keeps (Framed B board h0) (store_translated B len addr v)
  unfolding store_translated
  store_translated-Framed len addr v =
      search (keeps_rules, translate-Framed, store_at-Framed) depth 12

module _ {D : Type 0} (B : Board D) (board : IsBoard B) where
  in_mpp-Framed :
      {A : Type 0} (h0 : HartState) (m : M D A)
      → ((h : HartState) → Keeps (Framed B board h) m)
      → (r : Run D) → Frame h0 r.hs
      → r.hs.privmode ≡ 3
      → Holds (Framed B board h0) (in_mpp B m r)
  unfolding in_mpp ◌>>=◌ modify gets pure
  in_mpp-Framed h0 m km r f e =
      let mode = field r.hs.mstatus 11 2 in
      let r1 = record r { hs = record r.hs { privmode = mode } } in
      back_to_machine h0 r.hs mode (m r1) f e ((km r1.hs).at r1 (Frame-refl r1.hs))

  -- The choice that both accesses by a virtual address make.
  by_mode-Framed :
      {A : Type 0} (h0 : HartState) (active : Bool) (translated direct : M D A)
      → ((h : HartState) → Keeps (Framed B board h) translated)
      → Keeps (Framed B board h0) direct
      → (r : Run D) → Frame h0 r.hs
      → Holds (Framed B board h0) (
          (if not (r.hs.privmode == 3)
              then translated
              else if active
              then in_mpp B translated
              else direct)
            r)
  by_mode-Framed h0 active translated direct kt kd r f = elim (Bool-cases (r.hs.privmode == 3)) [
    | inr other ↦ rw (other, Holds) ((kt h0).at r f)
    | inl machine ↦ elim (Bool-cases active) [
      | inl on ↦
          rw (machine, on, Holds) (in_mpp-Framed h0 translated kt r f (ground (arith, machine)))
      | inr off ↦ rw (machine, off, Holds) (kd.at r f)
    ]
  ]

  pub virt_mem_fetch-Framed :
      (h0 : HartState) (len addr : ℕ) → Keeps (Framed B board h0) (virt_mem_fetch B len addr)
  unfolding virt_mem_fetch ◌>>=◌ gets
  virt_mem_fetch-Framed h0 len addr = record {
    at = λ r.
        by_mode-Framed h0 (r.hs.mem_status && mprv r.hs) (fetch_translated B len addr)
          (mem_fetch B len addr) (λ h. fetch_translated-Framed B board h len addr)
          (mem_fetch-Framed B board h0 len addr) r;
  }

  pub virt_mem_store-Framed :
      (h0 : HartState) (len addr v : ℕ) → Keeps (Framed B board h0) (virt_mem_store B len addr v)
  unfolding virt_mem_store ◌>>=◌ gets
  virt_mem_store-Framed h0 len addr v = record {
    at = λ r.
        by_mode-Framed h0 (mprv r.hs) (store_translated B len addr v) (mem_store B len addr v)
          (λ h. store_translated-Framed B board h len addr v)
          (mem_store-Framed B board h0 len addr v) r;
  }

  -- If the handlers of the devices reach no more of the hart than mip, a fetch and a store by a
  -- virtual address, where they are defined, leave all of the hart as it was but the two fault
  -- flags, mip and the cache, which stays well formed if it was.
  pub accesses-Framed :
      (len addr v : ℕ) (r : Run D)
      → Holds (λ r'. Frame r.hs r'.hs) (virt_mem_fetch B len addr r)
        × Holds (λ r'. Frame r.hs r'.hs) (virt_mem_store B len addr v r)
  accesses-Framed len addr v r = (
    (virt_mem_fetch-Framed r.hs len addr).at r (Frame-refl r.hs),
    (virt_mem_store-Framed r.hs len addr v).at r (Frame-refl r.hs),
  )
