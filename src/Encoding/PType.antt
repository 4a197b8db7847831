-- ===== src/Encoding/PType.antt =====
-- encoding/constants.go: the packet types. `PType` is a Go int, here a number.
use magic_mqtt.Prelude.{ℕ}

abbrev pub PType : Type 0
PType = ℕ

abbrev pub connect : PType
connect = 1

abbrev pub connack : PType
connack = 2

abbrev pub publish : PType
publish = 3

abbrev pub puback : PType
puback = 4

abbrev pub pubrec : PType
pubrec = 5

abbrev pub pubrel : PType
pubrel = 6

abbrev pub pubcomp : PType
pubcomp = 7

abbrev pub subscribe : PType
subscribe = 8

abbrev pub suback : PType
suback = 9

abbrev pub unsubscribe : PType
unsubscribe = 10

abbrev pub unsuback : PType
unsuback = 11

abbrev pub pingreq : PType
pingreq = 12

abbrev pub pingresp : PType
pingresp = 13

abbrev pub disconnect : PType
disconnect = 14
