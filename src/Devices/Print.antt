-- ===== src/Devices/Print.antt =====
-- src/devices_list.c: `halevt_print_device` and `halevt_print_all_devices`, for debugging.
use gnu_halevt.Base.{List, [], ◌∷◌, ◌++◌, Option, none, some, Bytes, codes}
use gnu_halevt.Devices.{DeviceProperty, Device, Devices}

unfoldable pub print_values : List Bytes → Bytes
print_values [] = codes "\n"
print_values (value ∷ values) = codes "'" ++ (value ++ (codes "' " ++ print_values values))

unfoldable pub print_properties : List DeviceProperty → Bytes
unfolding print_values
print_properties [] = []
print_properties (p ∷ ps) =
    codes " " ++ (p.key ++ (codes " = " ++ (print_values p.values ++ print_properties ps)))

-- `none` is the read through NULL behind the message about it.
unfoldable pub print_device : Option Device → Option Bytes
unfolding print_properties
print_device none = none
print_device (some d) =
    some (codes "Device udi: " ++ (d.udi ++ (codes "\n" ++ print_properties d.properties)))

-- `halevt_print_all_devices`: the udis.
unfoldable pub print_all_devices : Devices → Bytes
print_all_devices [] = []
print_all_devices (d ∷ ds) = d.udi ++ (codes "\n" ++ print_all_devices ds)
