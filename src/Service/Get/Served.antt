-- ===== src/Service/Get/Served.antt =====
-- internal/object/get.go: the window that `GetObject` serves lies in the object, and is what is read.
use opens.Prelude.{ℕ, ◌≤◌, Option, Bytes}
use opens.Meta.Types.{Part}
use opens.Service.Get.{Window, Read, refused, found}

module _ (content : Part → Bytes) where
  abbrev Within : ℕ → Window → Type 0
  Within size w = (w.start ≤ w.stop) × (w.stop ≤ size)

  -- The window lies in the object.
  Inside : ℕ → Read Window → Type 0
  Inside size (refused e) = Unit
  Inside size (found w) = (w.start ≤ w.stop) × (w.stop ≤ size)
