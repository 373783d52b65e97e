-- ===== src/Edits/Tests.antt =====
-- A concrete shape, and the theorem of the component at it.
use ap_academy_landing.Prelude.{◌+◌, ◌%◌, ◌≤◌, ◌≡◌, ◌↔◌}
use ap_academy_landing.Edits.{check_class_shape, accepted, accepted-check_class_shape}

accepted-check_class_shape_example :
    (check_class_shape 1380 60 ≡ accepted)
    ↔ ((15 ≤ 60) × (60 ≤ 480) × (60 % 5 ≡ 0) × (1380 + 60 ≤ 1440))
accepted-check_class_shape_example = accepted-check_class_shape 1380 60
