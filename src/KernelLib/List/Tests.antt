-- ===== src/KernelLib/List/Tests.antt =====
-- Runs of list.c on a list of three elements, at the addresses 3, 5 and 4, between a head at 1 and
-- a tail at 2.
use ee461s_projects.Common.{
  ℕ, ◌≡◌, refl, some, List, [], ◌∷◌, count, arith, ltb, ◌==◌, if◌then◌else◌, true, false,
}
use ee461s_projects.KernelLib.List.{
  Links, LinkedList, list_insert, list_remove, list_size, size_loop, list_begin, list_next, is_head,
  is_interior, list_empty, list_front,
}
use ee461s_projects.KernelLib.List.Chain.{IsList}
use ee461s_projects.KernelLib.List.Insert.{list_insert_lem}
use ee461s_projects.KernelLib.List.Remove.{list_remove_lem}
use ee461s_projects.KernelLib.List.Sort.{list_sort}
use ee461s_projects.KernelLib.List.Sort.Runs.{IsAscending}
use ee461s_projects.KernelLib.List.Sort.Sorted.{list_sort_lem}

abbrev ends : LinkedList
ends = record { head = 1; tail = 2 }

abbrev three : Links
three = record {
  prev = λ e.
      if e == 3 then 1 else if e == 5 then 3 else if e == 4 then 5 else if e == 2 then 4 else 0;
  next = λ e.
      if e == 1 then 3 else if e == 3 then 5 else if e == 5 then 4 else if e == 4 then 2 else 0;
}

three-IsList : IsList three ends (3 ∷ 5 ∷ 4 ∷ [])
three-IsList = record {
  front_null = refl;
  back_null = refl;
  linked = (refl, refl, (refl, refl, (refl, refl, (refl, refl))));
  distinct = λ a. ground arith;
  not_null = refl;
}

three_size : list_size 9 three ends ≡ some 3
unfolding list_size size_loop list_begin list_next is_head is_interior
three_size = refl

three_front_lem : list_front three ends ≡ some 3
unfolding list_front list_empty list_begin
three_front_lem = refl

list_insert_lem_example :
    (m' : Links) × (list_insert three 4 6 ≡ some m') × IsList m' ends (3 ∷ 5 ∷ 6 ∷ 4 ∷ [])
list_insert_lem_example = list_insert_lem (3 ∷ 5 ∷ []) (4 ∷ []) 6 three-IsList (omega arith) refl

list_remove_lem_example :
    (m' : Links) × (list_remove three 5 ≡ some (4, m')) × IsList m' ends (3 ∷ 4 ∷ [])
list_remove_lem_example = list_remove_lem (3 ∷ []) (4 ∷ []) 5 three-IsList

ltb_asym : (x y : ℕ) → ltb x y ≡ true → ltb y x ≡ false
ltb_asym x y h = ground arith

list_sort_lem_example :
    (m' : Links) × (zs : List ℕ) × (list_sort ltb 4 three ends ≡ some m')
    × IsList m' ends zs
    × ((e : ℕ) → count e zs ≡ count e (3 ∷ 5 ∷ 4 ∷ []))
    × IsAscending ltb zs
list_sort_lem_example = list_sort_lem ltb ltb_asym 4 (3 ∷ 5 ∷ 4 ∷ []) three-IsList (omega arith)
