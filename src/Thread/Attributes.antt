-- ===== src/Thread/Attributes.antt =====
-- thread::attributes of impl/freertos/thread.h and thread.cpp.
use roo_threads.Base.{ℕ, ◌<◌, ◌^◌, ◌%◌, ◌≡◌, refl, Bool, true, Option, none, some, arith}
use roo_threads.Backend.{Config, config}

-- `name` is the address of the characters.
pub record Attributes : Type 0 where
  pub stack_size : ℕ
  pub priority : ℕ
  pub joinable : Bool
  pub name : ℕ

-- The value of a macro that config.h has given one.
abbrev pub macro_value : Option ℕ → ℕ
macro_value none = 0
macro_value (some n) = n

-- The constructor, where the literal "roo" is at the address `roo`.
unfoldable pub attributes : Config → ℕ → Attributes
attributes c roo = record {
  stack_size = macro_value (config c).default_thread_stack_size % 2 ^ 32;
  priority = macro_value (config c).default_thread_priority % 2 ^ 16;
  joinable = true;
  name = roo;
}

-- A setter gets its argument as an integer of 32 or of 16 bits.
unfoldable pub set_stack_size : ℕ → Attributes → Attributes
set_stack_size stack_size a = record a { stack_size = stack_size % 2 ^ 32 }

unfoldable pub set_priority : ℕ → Attributes → Attributes
set_priority priority a = record a { priority = priority % 2 ^ 16 }

unfoldable pub set_name : ℕ → Attributes → Attributes
set_name name a = record a { name = name }

-- The attributes that a program can make.
pub data IsMade (c : Config) : Attributes → Type 0 where
  constructed : (roo : ℕ) → IsMade c (attributes c roo)
  stack_size_set : {a : Attributes} (n : ℕ) → IsMade c a → IsMade c (set_stack_size n a)
  priority_set : {a : Attributes} (n : ℕ) → IsMade c a → IsMade c (set_priority n a)
  name_set : {a : Attributes} (n : ℕ) → IsMade c a → IsMade c (set_name n a)

pub record IsValid (a : Attributes) : Type 0 where
  pub stack_size_small : a.stack_size < 2 ^ 32
  pub priority_small : a.priority < 2 ^ 16
  pub is_joinable : a.joinable ≡ true

-- Attributes that a program can make fit their fields, and their thread is joinable, since no member sets that.
pub IsMade-IsValid : {c : Config} {a : Attributes} → IsMade c a → IsValid a
unfolding attributes set_stack_size set_priority set_name
IsMade-IsValid (constructed roo) = record {
  stack_size_small = omega arith;
  priority_small = omega arith;
  is_joinable = refl;
}
IsMade-IsValid (stack_size_set n made) =
    let v = IsMade-IsValid made in
    record {
      stack_size_small = omega arith;
      priority_small = v.priority_small;
      is_joinable = v.is_joinable;
    }
IsMade-IsValid (priority_set n made) =
    let v = IsMade-IsValid made in
    record {
      stack_size_small = v.stack_size_small;
      priority_small = omega arith;
      is_joinable = v.is_joinable;
    }
IsMade-IsValid (name_set n made) =
    let v = IsMade-IsValid made in
    record {
      stack_size_small = v.stack_size_small;
      priority_small = v.priority_small;
      is_joinable = v.is_joinable;
    }
