-- ===== src/Core/Lifetime/Defs.antt =====
-- include/cxxdes/core/impl/coroutine.ipp and impl/coroutine_data.ipp: the pointers to the state of
-- a coroutine that its handles, its promise and others have, and the destruction of its frame.
use libcxxdes.Base.{
  ℕ, suc, ◌&&◌, not, Bool, true, false, none, some, length, if◌then◌else◌, ◌==◌, update,
}
use libcxxdes.Misc.RefCount
use libcxxdes.Misc.RefCount.{
  Memory, get, construct, copy_construct, copy_assign, move_construct, move_assign,
}

-- The pointers of the program, of which that of the promise of coroutine `o` is at `promise o`. A
-- coroutine has a frame from its call to the frame's destruction; `crashed`: a frame has been
-- destroyed twice, or null has been dereferenced.
pub record Heap : Type 0 where
  pub memory : Memory
  pub created : ℕ
  pub promise : ℕ → ℕ
  pub has_frame : ℕ → Bool
  pub started : ℕ → Bool
  pub crashed : Bool

-- `new coroutine_data_type(loc)`: an object that nobody refers to yet.
unfoldable pub allocate : ℕ → Memory → Memory
allocate o m = record m { references = update m.references o 0; deleted = update m.deleted o false }

-- A call of a coroutine function: the promise's constructor, and `get_return_object`. The handle's
-- pointer is the last one.
unfoldable pub call : Heap → Heap
unfolding allocate construct copy_construct
call s =
    let o = s.created in
    let p = length s.memory.pointers in
    record {
      memory = copy_construct p (construct (some o) (allocate o s.memory));
      created = suc o;
      promise = update s.promise o p;
      has_frame = update s.has_frame o true;
      started = update s.started o false;
      crashed = s.crashed;
    }

unfoldable pub crash : Heap → Heap
crash s = record s { crashed = true }

-- `std::coroutine_handle::destroy`, and a body that ends: the promise is destroyed. What the
-- destructors of the body's variables do is operations of the program.
unfoldable pub destroy_frame : ℕ → Heap → Heap
unfolding RefCount.destroy crash
destroy_frame o s =
    if s.has_frame o
    then record s {
      memory = RefCount.destroy (s.promise o) s.memory;
      has_frame = update s.has_frame o false;
    }
    else crash s

unfoldable pub destroy_if_not_started : ℕ → Heap → Heap
unfolding destroy_frame
destroy_if_not_started o s =
    if s.memory.references o == 2 && not (s.started o) then destroy_frame o s else s

-- `coroutine(coroutine const &)`, `operator=(coroutine const &)`, `coroutine(coroutine &&)` and
-- `operator=(coroutine &&)`, of the handles whose pointers are at these positions.
unfoldable pub copy_handle : ℕ → Heap → Heap
unfolding copy_construct
copy_handle j s = record s { memory = copy_construct j s.memory }

unfoldable pub assign_handle : ℕ → ℕ → Heap → Heap
unfolding copy_assign
assign_handle i j s = if i == j then s else record s { memory = copy_assign i j s.memory }

unfoldable pub move_handle : ℕ → Heap → Heap
unfolding move_construct
move_handle j s = record s { memory = move_construct j s.memory }

unfoldable pub move_assign_handle : ℕ → ℕ → Heap → Heap
unfolding move_assign
move_assign_handle i j s = if i == j then s else record s { memory = move_assign i j s.memory }

-- `~ptr` of a pointer that is neither a handle's nor a promise's.
unfoldable pub drop : ℕ → Heap → Heap
unfolding RefCount.destroy
drop i s = record s { memory = RefCount.destroy i s.memory }

-- `~coroutine`
unfoldable pub destroy_handle : ℕ → Heap → Heap
unfolding get destroy_if_not_started drop
destroy_handle i s = elim (get i s.memory.pointers) [
  | none ↦ drop i s
  | some o ↦ drop i (destroy_if_not_started o s)
]

-- Another pointer to the coroutine, as that of a token.
unfoldable pub refer : ℕ → Heap → Heap
unfolding construct
refer o s = record s { memory = construct (some o) s.memory }

-- `bind_` of the coroutine behind a handle: the start token and the environment refer to it. The
-- pointer to its parent is a `refer` of the parent.
unfoldable pub bind_handle : ℕ → Heap → Heap
unfolding get refer crash
bind_handle i s = elim (get i s.memory.pointers) [
  | none ↦ crash s
  | some o ↦
      if s.started o then s else refer o (refer o (record s { started = update s.started o true }))
]
