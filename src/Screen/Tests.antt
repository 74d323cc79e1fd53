-- ===== src/Screen/Tests.antt =====
-- A screen with the cursor in the region of a program, and the theorems there.
use sistemas_operativos.Screen.{Screen}

-- Column 10 of row 20, in the region from column 6 and row 4 on.
abbrev pub screen : Screen
screen = record {
  video = λ f c. f;
  attributes = λ f c. 15;
  i = 10;
  j = 20;
  mouse_select = λ h. 0;
  size = 0;
  i_start = 6;
  j_start = 4;
  stop_backwards = 7;
  shown = λ a. 0;
}
